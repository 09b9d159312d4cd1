-- ===== src/Raft/Config/Overlap.antt =====
-- cluster_config.go, `quorumFor`: the common members of two quorums.
use go_core_x.Prelude.{
  ◌+◌, ◌*◌, ◌<◌, ◌≤◌, String, ◌≡◌, Bool, true, ◌||◌, List, ◌∷◌, Memᴰ, Perm, arith, length, count,
  count-perm, length-perm, count_mono, count_overlap, ◌==◌, string_eq, same_self,
}
use go_core_x.Raft.Types.{ClusterConfig, joint}
use go_core_x.Raft.Config.{quorum_for}

-- Who supports a node: itself, and the peers that acknowledged it.
abbrev pub supports : String → (String → Bool) → String → Bool
supports self ack m = (m == self) || ack m

count-supports :
    (self : String) (ack : String → Bool) (voters : List String)
    → 1 + count ack voters ≤ count (supports self ack) (self ∷ voters)
count-supports self ack voters =
    ground
      (arith, same_self self, count_mono ack (supports self ack) voters (λ x h. ground (arith, h)))

-- Majorities of the same members, seen from two nodes, meet in a member that supports both.
majority_overlap :
    (self₁ self₂ : String) (ack₁ ack₂ : String → Bool) (voters₁ voters₂ : List String)
    → Perm (self₁ ∷ voters₁) (self₂ ∷ voters₂)
    → length voters₁ + 1 < 2 * (1 + count ack₁ voters₁)
    → length voters₂ + 1 < 2 * (1 + count ack₂ voters₂)
    → (m : String) × Memᴰ m (self₁ ∷ voters₁)
      × (supports self₁ ack₁ m ≡ true)
      × (supports self₂ ack₂ m ≡ true)
majority_overlap self₁ self₂ ack₁ ack₂ voters₁ voters₂ same h₁ h₂ =
    count_overlap (supports self₁ ack₁) (supports self₂ ack₂) (self₁ ∷ voters₁) (
      omega (
        arith,
        length-perm same,
        count-supports self₁ ack₁ voters₁,
        count-supports self₂ ack₂ voters₂,
        count-perm (supports self₂ ack₂) same,
      ))

old_quorum-majority :
    (c : ClusterConfig) (ack : String → Bool)
    → quorum_for c ack ≡ true
    → length c.voters + 1 < 2 * (1 + count ack c.voters)
unfolding quorum_for
old_quorum-majority c ack h = ground arith

new_quorum-majority :
    (c : ClusterConfig) (ack : String → Bool)
    → c.phase ≡ joint
    → quorum_for c ack ≡ true
    → length c.new_voters + 1 < 2 * (1 + count ack c.new_voters)
unfolding quorum_for
new_quorum-majority c ack j h = ground arith

-- Two nodes whose configurations list the same old members, whatever their phases, cannot both
-- reach a quorum without a common member: one that each of them is, or was acknowledged by.
pub quorums_overlap :
    (self₁ self₂ : String) (c₁ c₂ : ClusterConfig) (ack₁ ack₂ : String → Bool)
    → Perm (self₁ ∷ c₁.voters) (self₂ ∷ c₂.voters)
    → quorum_for c₁ ack₁ ≡ true
    → quorum_for c₂ ack₂ ≡ true
    → (m : String) × Memᴰ m (self₁ ∷ c₁.voters)
      × (supports self₁ ack₁ m ≡ true)
      × (supports self₂ ack₂ m ≡ true)
quorums_overlap self₁ self₂ c₁ c₂ ack₁ ack₂ same h₁ h₂ =
    majority_overlap self₁ self₂ ack₁ ack₂ c₁.voters c₂.voters same (old_quorum-majority c₁ ack₁ h₁)
      (old_quorum-majority c₂ ack₂ h₂)

-- A quorum in the joint phase also meets every quorum, of either phase, of a node whose
-- configuration has moved on to the new members.
pub joint_overlaps_new :
    (self₁ self₂ : String) (c₁ c₂ : ClusterConfig) (ack₁ ack₂ : String → Bool)
    → c₁.phase ≡ joint
    → Perm (self₁ ∷ c₁.new_voters) (self₂ ∷ c₂.voters)
    → quorum_for c₁ ack₁ ≡ true
    → quorum_for c₂ ack₂ ≡ true
    → (m : String) × Memᴰ m (self₁ ∷ c₁.new_voters)
      × (supports self₁ ack₁ m ≡ true)
      × (supports self₂ ack₂ m ≡ true)
joint_overlaps_new self₁ self₂ c₁ c₂ ack₁ ack₂ j same h₁ h₂ =
    majority_overlap self₁ self₂ ack₁ ack₂ c₁.new_voters c₂.voters same
      (new_quorum-majority c₁ ack₁ j h₁) (old_quorum-majority c₂ ack₂ h₂)
