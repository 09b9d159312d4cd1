-- ===== src/Storage/Kv/Bounded.antt =====
-- raft_store.go: the number of keys in memory, whatever the calls of the operating system do.
use go_core_x.Prelude.{
  ℕ, ◌≤◌, ◌≡◌, refl, ◌∙◌, arith, Bool-cases, inl, inr, Option, none, some, List, [], ◌∷◌, ◌==◌,
}
use go_core_x.Bytes.{Bytes}
use go_core_x.Bytes.Equal.{bytes_eq}
use go_core_x.Storage.Writer.{Writer}
use go_core_x.Storage.Index.{HashIndex, set, remove, len}
use go_core_x.Storage.Index.Bounds.{index_bounded}
use go_core_x.Storage.Kv.{
  meta_key_last_applied, Store, write_meta_locked, checkpoint, set_written, del_written, write_kv,
  delete_kv,
}
use go_core_x.Storage.Kv.Recovery.Runs.{KvOp, put, del, store_step, store_run}

-- The index within the bound, which is that of another index.
abbrev IsBounded : ℕ → HashIndex → Type 0
IsBounded max idx = (len idx ≤ max) × (idx.max_keys ≡ max)

module _ (crc : Bytes → ℕ) (times : ℕ → ℕ) where
  checkpoint-index : (i : ℕ) (s : Store) → (checkpoint crc times i s).0.index ≡ s.index
  unfolding checkpoint
  checkpoint-index i s = elim (Bool-cases (write_meta_locked crc times i s.writer).1) [
    | inl good ↦ rw (checkpoint, good) refl
    | inr bad ↦ rw (checkpoint, bad) refl
  ]

  set-IsBounded :
      (max offset : ℕ) (key : Bytes) (idx : HashIndex)
      → IsBounded max idx
      → IsBounded max (set key offset idx).0
  set-IsBounded max offset key idx b =
      let kept = index_bounded key offset idx (omega (arith, b)) in
      (omega (arith, kept, b), kept.2 ∙ b.1)

  remove-IsBounded :
      (max : ℕ) (key : Bytes) (idx : HashIndex) → IsBounded max idx → IsBounded max (remove key idx)
  remove-IsBounded max key idx b =
      let kept = index_bounded key 0 idx (omega (arith, b)) in
      (omega (arith, kept, b), kept.3 ∙ b.1)

  set_written-IsBounded :
      (max i : ℕ) (key : Bytes) (s : Store) (r : Writer × Option ℕ)
      → IsBounded max s.index
      → IsBounded max (set_written crc times key i s r).0.index
  set_written-IsBounded max i key s (w, none) b = b
  set_written-IsBounded max i key s (w, some offset) b =
      elim (Bool-cases (set key offset s.index).1) [
        | inl room ↦ rw (room, checkpoint-index i _) (set-IsBounded max offset key s.index b)
        | inr full ↦ rw full b
      ]

  del_written-IsBounded :
      (max i : ℕ) (key : Bytes) (s : Store) (r : Writer × Option ℕ)
      → IsBounded max s.index
      → IsBounded max (del_written crc times key i s r).0.index
  del_written-IsBounded max i key s (w, none) b = b
  del_written-IsBounded max i key s (w, some offset) b =
      rw (checkpoint-index i (record s { writer = w; index = remove key s.index }))
        (remove-IsBounded max key s.index b)

  step-IsBounded :
      (op : KvOp) (max : ℕ) (s : Store)
      → IsBounded max s.index
      → IsBounded max (store_step crc times op s).0.index
  unfolding write_kv delete_kv
  step-IsBounded (put key value i) max s b = elim (Bool-cases (key == meta_key_last_applied)) [
    | inl reserved ↦ rw (write_kv, reserved) b
    | inr free ↦ rw (write_kv, free) (set_written-IsBounded max i key s _ b)
  ]
  step-IsBounded (del key i) max s b = elim (Bool-cases (key == meta_key_last_applied)) [
    | inl reserved ↦ rw (delete_kv, reserved) b
    | inr free ↦ rw (delete_kv, free) (del_written-IsBounded max i key s _ b)
  ]

  -- Whatever writes and deletes are made, by whatever keys, and however the calls of the file go: an index within its
  -- bound stays within it, and the bound stays the same.
  pub store_run_bounded :
      (ops : List KvOp) (s : Store)
      → len s.index ≤ s.index.max_keys
      → (len (store_run crc times ops s).0.index ≤ s.index.max_keys)
        × ((store_run crc times ops s).0.index.max_keys ≡ s.index.max_keys)
  store_run_bounded ops s h = run ops s (h, refl)
    where
      run :
          (ops : List KvOp) (t : Store)
          → IsBounded s.index.max_keys t.index
          → IsBounded s.index.max_keys (store_run crc times ops t).0.index
      run [] t b = b
      run (op ∷ ops) t b =
          run ops (store_step crc times op t).0 (step-IsBounded op s.index.max_keys t b)
