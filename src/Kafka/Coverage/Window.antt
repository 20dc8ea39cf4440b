-- ===== src/Kafka/Coverage/Window.antt =====
-- internal/kafka/listener.go, `lagCoverage.update`: the pending fences of one partition.
use clearinghouse_batteries.Base.{
  ◌≡◌, ap, true, not, ◌&&◌, inl, inr, if◌then◌else◌, List, [], ◌∷◌, ◌++◌, Bool-cases, arith,
}
use clearinghouse_batteries.Base.Int.{ℤ, ltb_ℤ, leb_ℤ, ◌≤ℤ◌, ◌<ℤ◌}
use clearinghouse_batteries.Base.Lists.{All, All-append, All-weaken}
use clearinghouse_batteries.Kafka.Coverage.{
  PartitionSnapshot, OffsetObservation, PartitionCoverage, consume, advance,
}

abbrev NotAfter : OffsetObservation → OffsetObservation → Type 0
NotAfter f g = (f.at ≤ℤ g.at) × (f.last ≤ℤ g.last)

-- The fences stand in the order of their times and of their offsets.
abbrev pub Ascending : List OffsetObservation → Type 0
Ascending [] = Unit
Ascending (f ∷ fences) = All (NotAfter f) fences × Ascending fences

-- Newer than the cutoff, and ahead of the checkpoint.
abbrev pub InWindow : ℤ → ℤ → OffsetObservation → Type 0
InWindow cutoff next f = (cutoff <ℤ f.at) × (next <ℤ f.last)

-- The coverage of a partition that time and offsets have only moved forward.
pub record IsOrdered (c : PartitionCoverage) : Type 0 where
  pub ascending : Ascending c.pending
  pub within : All (λ (f : OffsetObservation). (f.at ≤ℤ c.observed) × (f.last ≤ℤ c.last)) c.pending

consume-All :
    (P : OffsetObservation → Type 0) (cutoff next covered : ℤ) (fs : List OffsetObservation)
    → All P fs
    → All P (consume cutoff next covered fs).1
unfolding consume
consume-All P cutoff next covered [] h = tt
consume-All P cutoff next covered (f ∷ fs) h =
    elim (Bool-cases (not (leb_ℤ f.last next) && ltb_ℤ cutoff f.at)) [
      | inl stop ↦ rw stop h
      | inr go ↦
          rw go (consume-All P cutoff next (if leb_ℤ f.last next then f.at else covered) fs h.1)
    ]

consume-InWindow :
    (cutoff next covered : ℤ) (fs : List OffsetObservation)
    → Ascending fs
    → Ascending (consume cutoff next covered fs).1
      × All (InWindow cutoff next) (consume cutoff next covered fs).1
unfolding consume
consume-InWindow cutoff next covered [] h = (tt, tt)
consume-InWindow cutoff next covered (f ∷ fs) h =
    elim (Bool-cases (not (leb_ℤ f.last next) && ltb_ℤ cutoff f.at)) [
      | inl stop ↦
          let first : InWindow cutoff next f = ground arith in
          rw stop (h, (first, All-weaken (InWindow cutoff next) fs (λ g k. behind f g first k) h.0))
      | inr go ↦
          rw go (consume-InWindow cutoff next (if leb_ℤ f.last next then f.at else covered) fs h.1)
    ]
  where
    behind :
        (f g : OffsetObservation) → InWindow cutoff next f → NotAfter f g → InWindow cutoff next g
    behind f g a b = (omega arith, omega arith)

le-leb_ℤ : (a b : ℤ) → a ≤ℤ b → leb_ℤ a b ≡ true
le-leb_ℤ a b k = ground arith

-- Where the checkpoint has passed all fences, none is left, and the last one is covered.
consume-passed :
    (cutoff next covered : ℤ) (fs : List OffsetObservation) (f : OffsetObservation)
    → All (λ (g : OffsetObservation). g.last ≤ℤ next) (fs ++ f ∷ [])
    → consume cutoff next covered (fs ++ f ∷ []) ≡ (f.at, [])
unfolding consume
consume-passed cutoff next covered [] f h = rw (le-leb_ℤ f.last next (h.0))
consume-passed cutoff next covered (g ∷ fs) f h =
    rw (le-leb_ℤ g.last next (h.0)) (consume-passed cutoff next g.at fs f h.1)

Ascending-append :
    (fs : List OffsetObservation) (f : OffsetObservation)
    → Ascending fs
    → All (λ (g : OffsetObservation). NotAfter g f) fs
    → Ascending (fs ++ f ∷ [])
Ascending-append [] f h k = (tt, tt)
Ascending-append (g ∷ fs) f h k =
    (All-append (NotAfter g) fs (f ∷ []) h.0 (k.0, tt), Ascending-append fs f h.1 k.1)

module _ (cutoff : ℤ) (p : PartitionSnapshot) (c : PartitionCoverage) (ordered : IsOrdered c)
    (clock : c.observed ≤ℤ p.observed_at) (log : c.last ≤ℤ p.last) where
  abbrev newest : OffsetObservation
  newest = record { last = p.last; at = p.observed_at }

  older : (f : OffsetObservation) → (f.at ≤ℤ c.observed) × (f.last ≤ℤ c.last) → NotAfter f newest
  older f h = (omega (arith, clock), omega (arith, log))

  -- A probe whose time and end of the log have not moved back keeps the fences in order, and
  -- leaves pending only such as are newer than the cutoff and ahead of the checkpoint.
  pub advance-InWindow :
      IsOrdered (advance cutoff p c) × All (InWindow cutoff p.next) (advance cutoff p c).pending
  unfolding advance
  advance-InWindow =
      let all = c.pending ++ newest ∷ [] in
      let before = All-weaken (λ f. NotAfter f newest) c.pending older ordered.within in
      let (ascending, window) =
        consume-InWindow cutoff p.next c.covered all
          (Ascending-append c.pending newest ordered.ascending before) in
      (
        record {
          ascending = ascending;
          within =
              consume-All (λ f. (f.at ≤ℤ p.observed_at) × (f.last ≤ℤ p.last)) cutoff p.next
                c.covered all (All-append _ c.pending _ before ((omega arith, omega arith), tt));
        },
        window,
      )

  -- A probe that finds the partition consumed to its end, where time and the end of the log have
  -- not moved back, covers it up to the time of the probe, and leaves no fence.
  pub advance-caught_up :
      p.last ≤ℤ p.next
      → ((advance cutoff p c).covered ≡ p.observed_at) × ((advance cutoff p c).pending ≡ [])
  unfolding advance
  advance-caught_up done =
      let before =
        All-weaken (λ (f : OffsetObservation). f.last ≤ℤ p.next) c.pending
          (λ f h. omega (arith, log, done, h.1)) ordered.within in
      let e = consume-passed cutoff p.next c.covered c.pending newest (
        All-append (λ (f : OffsetObservation). f.last ≤ℤ p.next) c.pending (newest ∷ []) before
          (done, tt)) in
      (
        ap (λ (r : ℤ × List OffsetObservation). r.0) e,
        ap (λ (r : ℤ × List OffsetObservation). r.1) e,
      )
