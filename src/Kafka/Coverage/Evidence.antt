-- ===== src/Kafka/Coverage/Evidence.antt =====
-- internal/kafka/listener.go, `lagCoverage.update`: the observations behind a published time.
use mathlib.Core.List.{Memᴰ}
use mathlib.Core.List.Memᴰ
use clearinghouse_batteries.Base.{
  ◌≡◌, refl, ap, subst, Option, none, some, Bool, true, false, ◌⊎◌, inl, inr, if◌then◌else◌, List,
  [], ◌∷◌, ◌++◌, arith, Bool-cases, append_assoc, append-nil,
}
use clearinghouse_batteries.Base.Int.{
  ℤ, pos, pos_part, neg_part, ◌-ℤ◌, ltb_ℤ, leb_ℤ, min_ℤ, ◌≤ℤ◌, eqb_ℤ_iff, is_positive,
}
use clearinghouse_batteries.Base.Lists.{
  find, All, All-append, All-find, All-upsert, All-map, All-weaken, find-true,
}
use clearinghouse_batteries.Base.Exec.{Error, Result, ok, err, failure}
use clearinghouse_batteries.Kafka.Coverage.{
  PartitionSnapshot, OffsetObservation, PartitionCoverage, LagCoverage, Update, coverage_of,
  of_partition, store_coverage, consume, advance, cover_all, forget, update, cover, refused,
  has_disappeared, update_checked, clock_regressed, publish, milliseconds,
}

abbrev pub History : Type 0
History = List PartitionSnapshot

-- At time `at` the log of the partition ended at an offset that its checkpoint has reached since.
pub record Evidence (seen : History) (partition at : ℤ) : Type 0 where
  pub observation : PartitionSnapshot
  pub reached : PartitionSnapshot
  pub observed : Memᴰ observation seen
  pub reached_seen : Memᴰ reached seen
  pub same_partition : observation.partition ≡ partition
  pub same_checkpoint : reached.partition ≡ partition
  pub passed : observation.last ≤ℤ reached.next
  pub timed : observation.observed_at ≡ at

pub record FenceSeen (seen : History) (partition : ℤ) (fence : OffsetObservation) : Type 0 where
  pub observation : PartitionSnapshot
  pub observed : Memᴰ observation seen
  pub same_partition : observation.partition ≡ partition
  pub ended : observation.last ≡ fence.last
  pub timed : observation.observed_at ≡ fence.at

abbrev Covered : History → ℤ → ℤ → Type 0
Covered seen partition at = (at ≡ pos 0) ⊎ Evidence seen partition at

pub record Backed (seen : History) (c : PartitionCoverage) : Type 0 where
  pub covered : Covered seen c.partition c.covered
  pub pending : All (FenceSeen seen c.partition) c.pending

pub not-passed : (a b : ℤ) → leb_ℤ a b ≡ true → a ≤ℤ b
not-passed a b h = ground arith

module _ (seen : History) (p : PartitionSnapshot) (now : Memᴰ p seen) where
  evidence :
      (fence : OffsetObservation)
      → FenceSeen seen p.partition fence
      → leb_ℤ fence.last p.next ≡ true
      → Evidence seen p.partition fence.at
  evidence fence f passed = record {
    observation = f.observation;
    reached = p;
    observed = f.observed;
    reached_seen = now;
    same_partition = f.same_partition;
    same_checkpoint = refl;
    passed = rw (f.ended) (not-passed fence.last p.next passed);
    timed = f.timed;
  }

  consume-Covered :
      (cutoff covered : ℤ) (pending : List OffsetObservation)
      → Covered seen p.partition covered
      → All (FenceSeen seen p.partition) pending
      → Covered seen p.partition (consume cutoff p.next covered pending).0
        × All (FenceSeen seen p.partition) (consume cutoff p.next covered pending).1
  unfolding consume
  consume-Covered cutoff covered [] h k = (h, tt)
  consume-Covered cutoff covered (fence ∷ pending) h k =
      elim (Bool-cases (leb_ℤ fence.last p.next)) [
        | inl passed ↦
            rw passed
              (consume-Covered cutoff fence.at pending (inr (evidence fence k.0 passed)) k.1)
        | inr ahead ↦ elim (Bool-cases (ltb_ℤ cutoff fence.at)) [
          | inl young ↦ rw (ahead, young) (h, k)
          | inr old ↦ rw (ahead, old) (consume-Covered cutoff covered pending h k.1)
        ]
      ]

  fence_now : FenceSeen seen p.partition (record { last = p.last; at = p.observed_at })
  fence_now = record {
    observation = p;
    observed = now;
    same_partition = refl;
    ended = refl;
    timed = refl;
  }

  advance-Backed :
      (cutoff : ℤ) (prev : PartitionCoverage)
      → prev.partition ≡ p.partition
      → Backed seen prev
      → Backed seen (advance cutoff p prev)
  unfolding advance
  advance-Backed cutoff prev e b =
      let (covered, pending) =
        consume-Covered cutoff prev.covered
          (prev.pending ++ record { last = p.last; at = p.observed_at } ∷ [])
          (subst (λ q. Covered seen q prev.covered) e b.covered)
          (All-append _ prev.pending _
            (subst (λ q. All (FenceSeen seen q) prev.pending) e b.pending) (fence_now, tt)) in
      record { covered = rw e covered; pending = rw e pending }

  coverage_of-Backed :
      (known : List PartitionCoverage) (o : Option PartitionCoverage)
      → find (of_partition p.partition) known ≡ o
      → All (Backed seen) known
      → ((coverage_of p.partition o).partition ≡ p.partition)
        × Backed seen (coverage_of p.partition o)
  coverage_of-Backed known none e h = (refl, record { covered = inl refl; pending = tt })
  coverage_of-Backed known (some c) e h = (
    (eqb_ℤ_iff c.partition p.partition).0 (find-true _ known c e),
    All-find (Backed seen) _ known c h e,
  )

abbrev next_coverage : ℤ → PartitionSnapshot → List PartitionCoverage → PartitionCoverage
next_coverage cutoff p known =
    advance cutoff p (coverage_of p.partition (find (of_partition p.partition) known))

pub min_le : (a b : ℤ) → (min_ℤ a b ≤ℤ a) × (min_ℤ a b ≤ℤ b)
min_le a b = ground arith

pub le_trans : (a b c : ℤ) → a ≤ℤ b → b ≤ℤ c → a ≤ℤ c
le_trans a b c h k = omega arith

-- What the least time over all partitions says of one of them.
abbrev Bounded : History → ℤ → PartitionSnapshot → Type 0
Bounded seen through p = (at : ℤ) × Covered seen p.partition at × (through ≤ℤ at)

abbrev pub Among : History → PartitionSnapshot → Type 0
Among seen p = Memᴰ p seen

-- The three results of the second loop.
record Covers (seen : History) (parts : List PartitionSnapshot) (through : ℤ)
    (r : ℤ × List PartitionCoverage) : Type 0 where
  pub backed : All (Backed seen) r.1
  pub below : r.0 ≤ℤ through
  pub bounded : All (Bounded seen r.0) parts

module _ (seen : History) where
  next-Backed :
      (cutoff : ℤ) (p : PartitionSnapshot) (known : List PartitionCoverage)
      → Memᴰ p seen
      → All (Backed seen) known
      → Backed seen (next_coverage cutoff p known)
        × ((next_coverage cutoff p known).partition ≡ p.partition)
  unfolding advance
  next-Backed cutoff p known m h =
      let (e, b) =
        coverage_of-Backed seen p m known (find (of_partition p.partition) known) refl h in
      (advance-Backed seen p m cutoff _ e b, e)

  cover_all-Covers :
      (cutoff : ℤ) (parts : List PartitionSnapshot) (known : List PartitionCoverage) (through : ℤ)
      → All (Among seen) parts
      → All (Backed seen) known
      → Covers seen parts through (cover_all cutoff parts known through)
  unfolding cover_all
  cover_all-Covers cutoff [] known through m h = record {
    backed = h;
    below = omega arith;
    bounded = tt;
  }
  cover_all-Covers cutoff (p ∷ parts) known through m h =
      let (b, e) = next-Backed cutoff p known m.0 h in
      let c = next_coverage cutoff p known in
      let known' = store_coverage c known in
      let least = min_ℤ through c.covered in
      let final = (cover_all cutoff parts known' least).0 in
      let rest =
        cover_all-Covers cutoff parts known' least m.1
          (All-upsert (Backed seen) (of_partition c.partition) c known b h) in
      let (left, right) = min_le through c.covered in
      record {
        backed = rest.backed;
        below = le_trans final least through rest.below left;
        bounded = (
          (
            c.covered,
            subst (λ q. Covered seen q c.covered) e b.covered,
            le_trans final least c.covered rest.below right,
          ),
          rest.bounded,
        );
      }

  forget-Backed : (c : PartitionCoverage) → Backed seen c → Backed seen (forget c)
  forget-Backed c h = record { covered = inl refl; pending = tt }

-- A published time above zero is backed for every partition.
abbrev pub Proved : History → ℤ → PartitionSnapshot → Type 0
Proved seen through p = (at : ℤ) × Evidence seen p.partition at × (through ≤ℤ at)

Bounded-Proved :
    (seen : History) (through : ℤ) (p : PartitionSnapshot)
    → is_positive through ≡ true
    → Bounded seen through p
    → Proved seen through p
Bounded-Proved seen through p h (at, inl zero, below) =
    absurd (ground (arith, ap pos_part zero, ap neg_part zero))
Bounded-Proved seen through p h (at, inr e, below) = (at, e, below)

pub record SoundUpdate (seen : History) (parts : List PartitionSnapshot) (checked : ℤ) (u : Update)
    : Type 0 where
  pub backed : All (Backed seen) u.partitions
  pub proved : u.lag.available ≡ true → All (Proved seen u.lag.covered_through) parts
  pub bounded : u.lag.available ≡ true → u.lag.covered_through ≤ℤ checked

module _ (seen : History) (c : LagCoverage) (parts : List PartitionSnapshot) (checked : ℤ) where
  publish-SoundUpdate :
      (r : ℤ × List PartitionCoverage)
      → Covers seen parts checked r
      → SoundUpdate seen parts checked (publish checked r)
  unfolding publish
  publish-SoundUpdate (through, known) h = record {
    backed = h.backed;
    proved = λ some_time.
        All-weaken (Proved seen through) parts (λ p. Bounded-Proved seen through p some_time)
          h.bounded;
    bounded = λ _. h.below;
  }

  refused-SoundUpdate :
      (e : Error) (known : List PartitionCoverage)
      → All (Backed seen) known
      → SoundUpdate seen parts checked (refused checked e known)
  refused-SoundUpdate e known h = record { backed = h; proved = λ k. cc; bounded = λ k. cc }

  module _ (among : All (Among seen) parts) (backed : All (Backed seen) c.partitions) where
    cover-SoundUpdate : (b : Bool) → SoundUpdate seen parts checked (cover c parts checked b)
    unfolding cover
    cover-SoundUpdate true =
        refused-SoundUpdate _ _
          (All-map (Backed seen) forget c.partitions (forget-Backed seen) backed)
    cover-SoundUpdate false = publish-SoundUpdate _ (
        cover_all-Covers seen (checked -ℤ milliseconds c.max_age) parts c.partitions checked among
          backed)

    unless_gone :
        (regressed gone : Bool)
        → SoundUpdate seen parts checked (
            if gone
            then refused checked (failure "kafka partition disappeared") c.partitions
            else cover c parts checked regressed)
    unless_gone regressed true = refused-SoundUpdate _ c.partitions backed
    unless_gone regressed false = cover-SoundUpdate regressed

    update_checked-SoundUpdate :
        (r : Result Bool) → SoundUpdate seen parts checked (update_checked c parts checked r)
    unfolding update_checked
    update_checked-SoundUpdate (err e) = refused-SoundUpdate e c.partitions backed
    update_checked-SoundUpdate (ok regressed) = unless_gone regressed (has_disappeared c parts)

    pub update-SoundUpdate : SoundUpdate seen parts checked (update c parts checked)
    unfolding update
    update-SoundUpdate =
        update_checked-SoundUpdate (clock_regressed c.partitions checked parts false)

-- A sequence of probes, each with the time at which it ended.
abbrev pub replay : LagCoverage → List (List PartitionSnapshot × ℤ) → LagCoverage
replay c [] = c
replay c ((parts, checked) ∷ polls) =
    replay (record c { partitions = (update c parts checked).partitions }) polls

abbrev pub observations : List (List PartitionSnapshot × ℤ) → History
observations [] = []
observations ((parts, checked) ∷ polls) = parts ++ observations polls

abbrev pub no_partitions : ℤ → LagCoverage
no_partitions max_age = record { partitions = []; max_age = max_age }

module _ {s t : History} (grows : (p : PartitionSnapshot) → Memᴰ p s → Memᴰ p t) where
  Evidence-later : {p at : ℤ} → Evidence s p at → Evidence t p at
  Evidence-later e = record {
    observation = e.observation;
    reached = e.reached;
    observed = grows _ e.observed;
    reached_seen = grows _ e.reached_seen;
    same_partition = e.same_partition;
    same_checkpoint = e.same_checkpoint;
    passed = e.passed;
    timed = e.timed;
  }

  Covered-later : {p at : ℤ} → Covered s p at → Covered t p at
  Covered-later (inl h) = inl h
  Covered-later (inr e) = inr (Evidence-later e)

  FenceSeen-later : {p : ℤ} (f : OffsetObservation) → FenceSeen s p f → FenceSeen t p f
  FenceSeen-later f e = record {
    observation = e.observation;
    observed = grows _ e.observed;
    same_partition = e.same_partition;
    ended = e.ended;
    timed = e.timed;
  }

  pub Backed-later : (c : PartitionCoverage) → Backed s c → Backed t c
  Backed-later c b = record {
    covered = Covered-later b.covered;
    pending = All-weaken _ c.pending FenceSeen-later b.pending;
  }

pub All-Among : (parts before : History) → All (Among (before ++ parts)) parts
All-Among [] before = tt
All-Among (p ∷ parts) before = (
  Memᴰ.append_right before (Memᴰ.head refl),
  subst (λ (seen : History). All (Among seen) parts) (append_assoc before (p ∷ []) parts)
      (All-Among parts (before ++ p ∷ [])),
)

replay-Backed :
    (c : LagCoverage) (before : History) (polls : List (List PartitionSnapshot × ℤ))
    → All (Backed before) c.partitions
    → All (Backed (before ++ observations polls)) (replay c polls).partitions
replay-Backed c before [] h = rw (append-nil before) h
replay-Backed c before ((parts, checked) ∷ polls) h =
    subst (λ (seen : History). All (Backed seen) (replay c ((parts, checked) ∷ polls)).partitions)
      (append_assoc before parts (observations polls))
      (replay-Backed (record c { partitions = (update c parts checked).partitions })
        (before ++ parts) polls
        (update-SoundUpdate (before ++ parts) c parts checked (All-Among parts before)
          (All-weaken _ c.partitions (Backed-later (λ p m. Memᴰ.append_left parts m)) h)).backed)

-- After any sequence of probes, a further probe that publishes an available time t, which is
-- not after the time of the probe, has for each partition that it saw an observation made at t or
-- later, in this probe or an earlier one, of an end of the log that a checkpoint of the partition
-- has reached in a probe.
pub update-Proved :
    (max_age : ℤ) (polls : List (List PartitionSnapshot × ℤ)) (parts : List PartitionSnapshot)
    (checked : ℤ)
    → (update (replay (no_partitions max_age) polls) parts checked).lag.available ≡ true
    → All
        (Proved
          (observations polls ++ parts)
          (update (replay (no_partitions max_age) polls) parts checked).lag.covered_through)
        parts
      × ((update (replay (no_partitions max_age) polls) parts checked).lag.covered_through
          ≤ℤ checked)
update-Proved max_age polls parts checked available =
    let sound =
      update-SoundUpdate (observations polls ++ parts) (replay (no_partitions max_age) polls) parts
        checked (All-Among parts (observations polls))
        (All-weaken _ _ (Backed-later (λ p m. Memᴰ.append_left parts m))
          (replay-Backed (no_partitions max_age) [] polls tt)) in
    (sound.proved available, sound.bounded available)
