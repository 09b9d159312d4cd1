-- ===== src/Cdc/Delivery.antt =====
-- change_log.go, `Publish`, `Subscribe`, `Unsubscribe` and `Close`: delivery to the subscribers.
use go_core_x.Prelude.{
  ℕ, ◌+◌, ◌≤◌, Bool, true, false, not, Option, none, some, List, [], ◌∷◌, ◌++◌, ◌≡◌, ◌≢◌, refl, sym,
  ap, ◌∙◌, arith, Map, lookup, insert, lookup-insert, select, length, leb, ltb, ◌==◌, nat_eq,
  if◌then◌else◌, Bool-cases, Option-cases, inl, inr,
}
use go_core_x.Cdc.{
  ChangeEvent, Channel, ChangeLog, default_subscriber_buf_size, new_change_log, subscribe,
  close_channel, is_subscribed, unsubscribe, remember, publish_record, send, deliver, publish,
  close,
}

-- The channel can be sent to.
abbrev pub is_open : Option Channel → Bool
is_open none = false
is_open (some ch) = not ch.is_closed

-- Every subscriber has an open channel, and its id has been handed out.
pub record IsConnected (cl : ChangeLog) : Type 0 where
  pub opens :
      (id : ℕ) → is_subscribed id cl.subscribers ≡ true → is_open (lookup id cl.channels) ≡ true
  pub issued : (id : ℕ) → is_subscribed id cl.subscribers ≡ true → id ≤ cl.next_id

pub new-IsConnected : (limit : ℕ) → IsConnected (new_change_log limit)
unfolding new_change_log is_subscribed
new-IsConnected limit = record {
  opens = λ id s. absurd (ground (arith, s));
  issued = λ id s. absurd (ground (arith, s));
}

pub subscribe-IsConnected :
    (buf_size : ℕ) (cl : ChangeLog) → IsConnected cl → IsConnected (subscribe buf_size cl).0
unfolding subscribe is_subscribed
subscribe-IsConnected buf_size cl h = record {
  opens = λ id s. ground (
    arith,
    lookup-insert id (cl.next_id + 1)
        (record {
          buffer = [];
          capacity = if leb buf_size 0 then default_subscriber_buf_size else buf_size;
          is_closed = false;
        })
        cl.channels,
    h.opens id,
  );
  issued = λ id s. ground (arith, h.issued id);
}

is_subscribed-select :
    (id gone : ℕ) (ids : List ℕ)
    → is_subscribed id (select (λ i. not (i == gone)) ids)
      ≡ (if id == gone then false else is_subscribed id ids)
unfolding is_subscribed
is_subscribed-select id gone [] = ground arith
is_subscribed-select id gone (i ∷ ids) = ground (arith, is_subscribed-select id gone ids)

lookup-close_channel :
    (id gone : ℕ) (channels : Map ℕ Channel)
    → is_open (lookup id (close_channel gone channels))
      ≡ (if gone == id then false else is_open (lookup id channels))
unfolding close_channel
lookup-close_channel id gone channels = elim (Option-cases (lookup gone channels)) [
  | inl q ↦ rw (q, close_channel) (ground (arith, q))
  | inr (ch, q) ↦
      rw (q, close_channel)
        (ground (arith, lookup-insert id gone (record ch { is_closed = true }) channels))
]

unsubscribe-IsConnected :
    (gone : ℕ) (cl : ChangeLog) → IsConnected cl → IsConnected (unsubscribe gone cl)
unfolding unsubscribe
unsubscribe-IsConnected gone cl h = record {
  opens = λ id s. ground (
    arith,
    is_subscribed-select id gone cl.subscribers,
    lookup-close_channel id gone cl.channels,
    h.opens id,
  );
  issued = λ id s. ground (arith, is_subscribed-select id gone cl.subscribers, h.issued id);
}

close-IsConnected : (cl : ChangeLog) → IsConnected cl → IsConnected (close cl)
unfolding close is_subscribed
close-IsConnected cl h = record {
  opens = λ id s. ground (arith, h.opens id);
  issued = λ id s. ground (arith, h.issued id);
}

-- The ids that a delivery is for have open channels.
abbrev Deliverable : List ℕ → Map ℕ Channel → Type 0
Deliverable ids channels =
    (id : ℕ) → is_subscribed id ids ≡ true → is_open (lookup id channels) ≡ true

-- What a delivery leaves alone, and that each channel stays open or closed.
pub record IsDelivered (ev : ChangeEvent) (ids : List ℕ) (cl cl' : ChangeLog) : Type 0 where
  pub subscribers : cl'.subscribers ≡ cl.subscribers
  pub next_id : cl'.next_id ≡ cl.next_id
  pub history : cl'.history ≡ cl.history
  pub still_open : (id : ℕ) → is_open (lookup id cl'.channels) ≡ is_open (lookup id cl.channels)

send_open :
    (ev : ChangeEvent) (ch : Channel)
    → ch.is_closed ≡ false
    → (ch' : Channel) × (send ev ch ≡ some ch') × (ch'.is_closed ≡ false)
unfolding send
send_open ev ch h = elim (Bool-cases (ltb (length ch.buffer) ch.capacity)) [
  | inl q ↦ (record ch { buffer = ch.buffer ++ ev ∷ [] }, rw (send, h, q) refl, h)
  | inr q ↦ (ch, rw (send, h, q) refl, h)
]

insert_open :
    (id : ℕ) (ch : Channel) (channels : Map ℕ Channel)
    → ch.is_closed ≡ false
    → is_open (lookup id channels) ≡ true
    → (j : ℕ) → is_open (lookup j (insert id ch channels)) ≡ is_open (lookup j channels)
insert_open id ch channels closed was j = ground (arith, lookup-insert j id ch channels)

head_open :
    (id : ℕ) (ids : List ℕ) (channels : Map ℕ Channel)
    → Deliverable (id ∷ ids) channels
    → is_open (lookup id channels) ≡ true
unfolding is_subscribed
head_open id ids channels h = h id (ground arith)

tail_open :
    (id : ℕ) (ids : List ℕ) (channels : Map ℕ Channel)
    → Deliverable (id ∷ ids) channels
    → Deliverable ids channels
unfolding is_subscribed
tail_open id ids channels h j s = h j (ground (arith, s))

open_ch :
    (ch : Channel) (c : Option Channel) → is_open c ≡ true → c ≡ some ch → ch.is_closed ≡ false
open_ch ch c h q = ground (arith, h, q)

no_ch : (c : Option Channel) → is_open c ≡ true → c ≢ none
no_ch c h q = ground (arith, h, q)

deliver-IsDelivered :
    (ev : ChangeEvent) (ids : List ℕ) (cl : ChangeLog)
    → Deliverable ids cl.channels
    → (cl' : ChangeLog) × (deliver ev ids cl ≡ some cl') × IsDelivered ev ids cl cl'
unfolding deliver
deliver-IsDelivered ev [] cl h = (
  cl,
  refl,
  record { subscribers = refl; next_id = refl; history = refl; still_open = λ id. refl },
)
deliver-IsDelivered ev (id ∷ ids) cl h =
    let head = head_open id ids cl.channels h in
    elim (Option-cases (lookup id cl.channels)) [
      | inl q ↦ absurd (no_ch (lookup id cl.channels) head q)
      | inr (ch, q) ↦
          let (ch', sent, open') = send_open ev ch (open_ch ch (lookup id cl.channels) head q) in
          let same = insert_open id ch' cl.channels open' head in
          let (cl', done, d) =
            deliver-IsDelivered ev ids (record cl { channels = insert id ch' cl.channels })
              (λ j s. same j ∙ tail_open id ids cl.channels h j s) in
          (
            cl',
            rw (q, deliver, sent) done,
            record {
              subscribers = d.subscribers;
              next_id = d.next_id;
              history = d.history;
              still_open = λ j. d.still_open j ∙ same j;
            },
          )
    ]

publish_closed : (ev : ChangeEvent) (cl : ChangeLog) → cl.closed ≡ true → publish ev cl ≡ some cl
unfolding publish publish_record
publish_closed ev cl q = simp (publish, publish_record, q)

publish_open :
    (ev : ChangeEvent) (cl : ChangeLog)
    → cl.closed ≡ false
    → publish ev cl ≡ deliver ev cl.subscribers (remember ev cl)
unfolding publish publish_record remember
publish_open ev cl q = simp (publish, publish_record, q)

-- A log that is not closed publishes without a panic: the event is remembered, and the log stays
-- connected.
pub publish-IsConnected :
    (ev : ChangeEvent) (cl : ChangeLog)
    → IsConnected cl
    → (cl' : ChangeLog) × (publish ev cl ≡ some cl') × IsConnected cl'
unfolding publish publish_record remember
publish-IsConnected ev cl h = elim (Bool-cases cl.closed) [
  | inl q ↦ (cl, publish_closed ev cl q, h)
  | inr q ↦
      let (cl', done, d) = deliver-IsDelivered ev cl.subscribers (remember ev cl) h.opens in
      (
        cl',
        publish_open ev cl q ∙ done,
        record {
          opens = λ id s. d.still_open id ∙ h.opens id (rw (sym d.subscribers) s);
          issued = λ id s. rw d.next_id (h.issued id (rw (sym d.subscribers) s));
        },
      )
]

send_closed : (ev : ChangeEvent) (ch : Channel) → ch.is_closed ≡ true → send ev ch ≡ none
unfolding send
send_closed ev ch h = simp (send, h)

nobody : (id : ℕ) → is_subscribed id [] ≢ true
unfolding is_subscribed
nobody id s = ground (arith, s)

open_send :
    (ev : ChangeEvent) (ch d d' : Channel) → ch.is_closed ≡ true → send ev d ≡ some d' → d ≢ ch
open_send ev ch d d' c p e = ground (arith, sym p ∙ ap (send ev) e ∙ send_closed ev ch c)

skip_head :
    (id i : ℕ) (ids : List ℕ)
    → is_subscribed id (i ∷ ids) ≡ true
    → i ≢ id
    → is_subscribed id ids ≡ true
unfolding is_subscribed
skip_head id i ids s ne = ground (arith, s, ne)

insert_other :
    (id i : ℕ) (d : Channel) (channels : Map ℕ Channel)
    → i ≢ id
    → lookup id (insert i d channels) ≡ lookup id channels
insert_other id i d channels ne = ground (arith, lookup-insert id i d channels, ne)

other_key : (id i : ℕ) (channels : Map ℕ Channel) → lookup i channels ≢ lookup id channels → i ≢ id
other_key id i channels ne e = ne (ap (λ k. lookup k channels) e)

deliver-closed :
    (ev : ChangeEvent) (ids : List ℕ) (cl : ChangeLog) (id : ℕ) (ch : Channel)
    → is_subscribed id ids ≡ true
    → lookup id cl.channels ≡ some ch
    → ch.is_closed ≡ true
    → deliver ev ids cl ≡ none
unfolding deliver
deliver-closed ev [] cl id ch s l c = absurd (nobody id s)
deliver-closed ev (i ∷ ids) cl id ch s l c = elim (Option-cases (lookup i cl.channels)) [
  | inl q ↦
      let ne = other_key id i cl.channels (λ e. ground (arith, q, l, e)) in
      rw (deliver, q) (deliver-closed ev ids cl id ch (skip_head id i ids s ne) l c)
  | inr (d, q) ↦ elim (Option-cases (send ev d)) [
    | inl p ↦ rw (deliver, q, p) refl
    | inr (d', p) ↦
        let ne =
          other_key id i cl.channels (λ e. open_send ev ch d d' c p (ground (arith, q, l, e))) in
        rw (deliver, q, p)
          (deliver-closed ev ids (record cl { channels = insert i d' cl.channels }) id ch
            (skip_head id i ids s ne) (insert_other id i d' cl.channels ne ∙ l) c)
  ]
]

close_channel-closed :
    (id : ℕ) (channels : Map ℕ Channel)
    → is_open (lookup id channels) ≡ true
    → (ch : Channel) × (lookup id (close_channel id channels) ≡ some ch) × (ch.is_closed ≡ true)
unfolding close_channel
close_channel-closed id channels o = elim (Option-cases (lookup id channels)) [
  | inl q ↦ absurd (no_ch (lookup id channels) o q)
  | inr (ch, q) ↦ (
    record ch { is_closed = true },
    rw (close_channel, q)
        (ground (arith, lookup-insert id id (record ch { is_closed = true }) channels)),
    refl,
  )
]

unsubscribe_channels :
    (id : ℕ) (cl : ChangeLog)
    → is_subscribed id cl.subscribers ≡ true
    → (unsubscribe id cl).channels ≡ close_channel id cl.channels
unfolding unsubscribe
unsubscribe_channels id cl s = simp (unsubscribe, s)

-- If a subscriber of a connected log leaves after an event has been recorded and before it has been
-- delivered to those subscribed when it was recorded, the delivery panics.
pub deliver-unsubscribe :
    (ev : ChangeEvent) (id : ℕ) (cl : ChangeLog)
    → IsConnected cl
    → is_subscribed id cl.subscribers ≡ true
    → deliver ev cl.subscribers (unsubscribe id (remember ev cl)) ≡ none
unfolding remember
deliver-unsubscribe ev id cl h s =
    let (ch, l, c) = close_channel-closed id cl.channels (h.opens id s) in
    deliver-closed ev cl.subscribers (unsubscribe id (remember ev cl)) id ch s
      (ap (lookup id) (unsubscribe_channels id (remember ev cl) s) ∙ l) c
