-- ===== src/Kafka/Coverage.antt =====
-- internal/kafka/listener.go: `lagCoverage`, which partitions the consumer has covered and up to
-- what time. Times are Unix milliseconds; a map from partitions is a list with one row for each.
pub mod Evidence
pub mod Window
use clearinghouse_batteries.Base.{
  ℕ, suc, ◌/◌, String, Option, none, some, Bool, true, false, not, ◌&&◌, ◌||◌, if◌then◌else◌, List,
  [], ◌∷◌, ◌++◌, map,
}
use clearinghouse_batteries.Base.Int.{
  ℤ, pos, negsuc, neg, ◌-ℤ◌, ltb_ℤ, leb_ℤ, eqb_ℤ, min_ℤ, is_positive,
}
use clearinghouse_batteries.Base.Lists.{find, any, upsert}
use clearinghouse_batteries.Base.Exec.{Error, Result, ok, err, failure, bind_result}
use clearinghouse_batteries.Store.Auth.Lag.{KafkaLag}

-- `last` is the source's `End`.
pub record PartitionSnapshot : Type 0 where
  pub partition : ℤ
  pub first : ℤ
  pub last : ℤ
  pub next : ℤ
  pub observed_at : ℤ

pub record OffsetObservation : Type 0 where
  pub last : ℤ
  pub at : ℤ

pub record PartitionCoverage : Type 0 where
  pub partition : ℤ
  pub next : ℤ
  pub last : ℤ
  pub observed : ℤ
  pub covered : ℤ
  pub pending : List OffsetObservation

abbrev pub no_coverage : ℤ → PartitionCoverage
no_coverage partition = record {
  partition = partition;
  next = pos 0;
  last = pos 0;
  observed = pos 0;
  covered = pos 0;
  pending = [];
}

pub record LagCoverage : Type 0 where
  pub partitions : List PartitionCoverage
  pub max_age : ℤ

abbrev pub of_partition : ℤ → PartitionCoverage → Bool
of_partition p c = eqb_ℤ c.partition p

-- `d.Milliseconds()`, which rounds towards zero.
abbrev pub milliseconds : ℤ → ℤ
milliseconds (pos n) = pos (n / 1_000_000)
milliseconds (negsuc n) = neg (pos (suc n / 1_000_000))

-- Whether the clock of a partition went back; an error if its offsets did.
unfoldable pub check_previous : Option PartitionCoverage → PartitionSnapshot → Result Bool
check_previous none p = ok false
check_previous (some prev) p =
    if ltb_ℤ p.next prev.next || ltb_ℤ p.last prev.last
    then err (failure "kafka offsets moved backwards")
    else ok (ltb_ℤ p.observed_at prev.observed)

unfoldable pub check_snapshot : List PartitionCoverage → ℤ → PartitionSnapshot → Result Bool
unfolding check_previous
check_snapshot known checked p =
    if leb_ℤ p.observed_at (pos 0) || ltb_ℤ checked p.observed_at
    then err (failure "invalid kafka lag observation")
    else check_previous (find (of_partition p.partition) known) p

-- The first loop: is the clock of any partition behind its last observation?
unfoldable pub clock_regressed :
    List PartitionCoverage → ℤ → List PartitionSnapshot → Bool → Result Bool
unfolding check_snapshot
clock_regressed known checked [] regressed = ok regressed
clock_regressed known checked (p ∷ parts) regressed =
    bind_result (check_snapshot known checked p)
      λ back. clock_regressed known checked parts (regressed || back)

abbrev pub was_seen : List PartitionSnapshot → PartitionCoverage → Bool
was_seen parts c = any (λ p. eqb_ℤ p.partition c.partition) parts

-- What a regressed clock leaves: the offsets, which detect a loss of data, and no evidence.
abbrev pub forget : PartitionCoverage → PartitionCoverage
forget c = record c { observed = pos 0; covered = pos 0; pending = [] }

-- The loop over the pending fences: one that the checkpoint has passed is covered, one that is too
-- old is dropped, and the first that is neither ends the loop.
unfoldable pub consume : ℤ → ℤ → ℤ → List OffsetObservation → ℤ × List OffsetObservation
consume cutoff next covered [] = (covered, [])
consume cutoff next covered (fence ∷ pending) =
    let passed = leb_ℤ fence.last next in
    let rest = consume cutoff next (if passed then fence.at else covered) pending in
    if not passed && ltb_ℤ cutoff fence.at then (covered, fence ∷ pending) else rest

unfoldable pub advance : ℤ → PartitionSnapshot → PartitionCoverage → PartitionCoverage
unfolding consume
advance cutoff p prev =
    let fence : OffsetObservation = record { last = p.last; at = p.observed_at } in
    let (covered, pending) = consume cutoff p.next prev.covered (prev.pending ++ fence ∷ []) in
    record {
      partition = prev.partition;
      next = p.next;
      last = p.last;
      observed = p.observed_at;
      covered = covered;
      pending = pending;
    }

-- `c.partitions[p]`, or the new coverage that the loop stores for it.
abbrev pub coverage_of : ℤ → Option PartitionCoverage → PartitionCoverage
coverage_of p none = no_coverage p
coverage_of p (some c) = c

abbrev pub store_coverage : PartitionCoverage → List PartitionCoverage → List PartitionCoverage
store_coverage c = upsert (of_partition c.partition) (λ _. c) c

-- The second loop, with the least time that all partitions are covered through.
unfoldable pub cover_all :
    ℤ → List PartitionSnapshot → List PartitionCoverage → ℤ → ℤ × List PartitionCoverage
unfolding advance
cover_all cutoff [] known through = (through, known)
cover_all cutoff (p ∷ parts) known through =
    let c = advance cutoff p (coverage_of p.partition (find (of_partition p.partition) known)) in
    cover_all cutoff parts (store_coverage c known) (min_ℤ through c.covered)

-- The lag to publish, an error beside it, and the coverage to keep.
pub record Update : Type 0 where
  pub lag : KafkaLag
  pub error : Option Error
  pub partitions : List PartitionCoverage

abbrev pub unproved : ℤ → KafkaLag
unproved checked = record { checked_at = checked; covered_through = pos 0; available = false }

abbrev pub refused : ℤ → Error → List PartitionCoverage → Update
refused checked e known = record { lag = unproved checked; error = some e; partitions = known }

unfoldable pub publish : ℤ → ℤ × List PartitionCoverage → Update
publish checked (through, known) = record {
  lag = record { checked_at = checked; covered_through = through; available = is_positive through };
  error = none;
  partitions = known;
}

unfoldable pub cover : LagCoverage → List PartitionSnapshot → ℤ → Bool → Update
unfolding publish cover_all
cover c parts checked true =
    refused checked (failure "kafka lag clock moved backwards") (map forget c.partitions)
cover c parts checked false =
    publish checked (cover_all (checked -ℤ milliseconds c.max_age) parts c.partitions checked)

unfoldable pub has_disappeared : LagCoverage → List PartitionSnapshot → Bool
has_disappeared c parts = any (λ known. not (was_seen parts known)) c.partitions

unfoldable pub update_checked : LagCoverage → List PartitionSnapshot → ℤ → Result Bool → Update
unfolding cover has_disappeared
update_checked c parts checked (err e) = refused checked e c.partitions
update_checked c parts checked (ok regressed) =
    if has_disappeared c parts
    then refused checked (failure "kafka partition disappeared") c.partitions
    else cover c parts checked regressed

unfoldable pub update : LagCoverage → List PartitionSnapshot → ℤ → Update
unfolding update_checked clock_regressed
update c parts checked =
    update_checked c parts checked (clock_regressed c.partitions checked parts false)
