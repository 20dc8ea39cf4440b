-- ===== src/Chain/Batch/Canonical.antt =====
-- internal/chain/listener.go, `Step`: the blocks and the events of a batch.
use clearinghouse_batteries.Base.{
  ℕ, zero, suc, String, ◌≡◌, refl, ap, Option, none, some, Bool, true, false, not, ◌&&◌, ◌||◌, ◌==◌,
  ◌⊎◌, inl, inr, List, [], ◌∷◌, Bool-cases, arith, eq_iff,
}
use clearinghouse_batteries.Base.Int.{
  ℤ, pos, ◌+ℤ◌, ◌-ℤ◌, ◌*ℤ◌, ◌≤ℤ◌, ◌<ℤ◌, min_ℤ, ltb_ℤ, +ℤ_parts, -ℤ_parts,
}
use clearinghouse_batteries.Base.Lists.{All, length}
use clearinghouse_batteries.Base.Text.{to_lower}
use clearinghouse_batteries.Base.Exec.{ok}
use clearinghouse_batteries.Store.Settlements.Events.{Block, EscrowEvent}
use clearinghouse_batteries.Chain.Logs.{Log, Abi, int64, decode}
use clearinghouse_batteries.Chain.Redemptions.{correlate_redemptions}
use clearinghouse_batteries.Chain.Redemptions.Correlated.{Correlated, correlate_redemptions_iff}
use clearinghouse_batteries.Chain.Config.{Config}
use clearinghouse_batteries.Chain.Polling.{Rpc, Header, header}
use clearinghouse_batteries.Chain.Polling.Gives.{
  Gives, Gives-return, Gives-fail, Gives-during, Gives-give, Gives-fail_if, Gives-any, Gives-bind,
}
use clearinghouse_batteries.Chain.Batch.{
  batch_end, fetch, link, header_at, in_domain, decode_in, decode_log, decode_logs, read_events,
  fetch_events,
}

min_bounds :
    (next confirmed size : ℤ)
    → next ≤ℤ confirmed
    → pos 0 <ℤ size
    → (pos 0 ≤ℤ min_ℤ (size -ℤ pos 1) (confirmed -ℤ next))
      × (next +ℤ min_ℤ (size -ℤ pos 1) (confirmed -ℤ next) ≤ℤ confirmed)
      × (next +ℤ min_ℤ (size -ℤ pos 1) (confirmed -ℤ next) <ℤ next +ℤ size)
min_bounds next confirmed size h k =
    let below = -ℤ_parts confirmed next in
    let short = -ℤ_parts size (pos 1) in
    elim (Bool-cases (ltb_ℤ (confirmed -ℤ next) (size -ℤ pos 1))) [
      | inl few ↦ rw few (
        omega (arith, below),
        omega (arith, below, +ℤ_parts next (confirmed -ℤ next)),
        ground (arith, below, short, few, +ℤ_parts next (confirmed -ℤ next), +ℤ_parts next size),
      )
      | inr full ↦ rw full (
        omega (arith, short),
        ground (arith, below, short, full, +ℤ_parts next (size -ℤ pos 1)),
        omega (arith, short, +ℤ_parts next (size -ℤ pos 1), +ℤ_parts next size),
      )
    ]

-- The batch from a block that is confirmed ends there or behind it, at a block that is confirmed,
-- and has at most as many blocks as configured.
pub batch_end_bounds :
    (next confirmed size : ℤ)
    → next ≤ℤ confirmed
    → pos 0 <ℤ size
    → (next ≤ℤ batch_end next confirmed size)
      × (batch_end next confirmed size ≤ℤ confirmed)
      × (batch_end next confirmed size <ℤ next +ℤ size)
unfolding batch_end
batch_end_bounds next confirmed size h k =
    let (a, b, c) = min_bounds next confirmed size h k in
    let m = min_ℤ (size -ℤ pos 1) (confirmed -ℤ next) in (above m a, b, c)
  where
    above : (m : ℤ) → pos 0 ≤ℤ m → next ≤ℤ next +ℤ m
    above m a = omega (arith, +ℤ_parts next m)

pub fetch-length :
    (rpc : Rpc) (count : ℕ) (n : ℤ) → Gives (fetch rpc n count) (λ hs _. length hs ≡ count)
unfolding fetch
fetch-length rpc zero n = Gives-return [] (λ w. refl)
fetch-length rpc (suc count) n = Gives-bind _ _ (Gives-any (header rpc n)) λ h u.
    Gives-bind _ _ (fetch-length rpc count (n +ℤ pos 1))
      λ rest e. Gives-return (h ∷ rest) (λ w. ap suc e)

-- The blocks of the headers, from block `n` on: each header names the block before it, the first
-- one the block before the batch, if there is any.
abbrev pub Linked : String → ℤ → List Header → List Block → Type 0
Linked previous n [] [] = Unit
Linked previous n [] (b ∷ bs) = ⊥
Linked previous n (h ∷ hs) [] = ⊥
Linked previous n (h ∷ hs) (b ∷ bs) =
    (b.number ≡ n)
    × (b.hash ≡ to_lower h.hash)
    × ((previous ≡ "") ⊎ (to_lower h.parent_hash ≡ previous))
    × Linked (to_lower h.hash) (n +ℤ pos 1) hs bs

parent_known :
    (previous parent : String)
    → (not (previous == "") && not (parent == previous)) ≡ false
    → (previous ≡ "") ⊎ (parent ≡ previous)
parent_known previous parent h = elim (Bool-cases (previous == "")) [
  | inl none_before ↦ inl ((eq_iff previous "").0 none_before)
  | inr some_before ↦ elim (Bool-cases (parent == previous)) [
    | inl same ↦ inr ((eq_iff parent previous).0 same)
    | inr differs ↦ absurd (broken (previous == "") (parent == previous) some_before differs h)
  ]
]
  where
    broken : (a b : Bool) → a ≡ false → b ≡ false → (not a && not b) ≡ false → ⊥
    broken a b ha hb k = ground arith

pub link-Linked :
    (hs : List Header) (previous : String) (n : ℤ)
    → Gives (link previous n hs) (λ bs _. Linked previous n hs bs)
unfolding link
link-Linked [] previous n = Gives-return [] (λ w. tt)
link-Linked (h ∷ hs) previous n = Gives-bind _ _ (Gives-fail_if _ _) λ u e.
    Gives-bind _ _ (link-Linked hs (to_lower h.hash) (n +ℤ pos 1))
      λ rest linked. Gives-return _ (λ w. (refl, refl, parent_known previous _ e, linked))

module _ (rpc : Rpc) (abi : Abi) (c : Config) where
  -- An event decoded from a log of the contract and a sender of the configuration, that is not
  -- removed, in a block whose header is in the batch and has the hash that the log names.
  pub record Canonical (next : ℤ) (headers : List Header) (e : EscrowEvent) : Type 0 where
    pub log : Log
    pub block : Header
    pub fetched : header_at next headers (int64 (log.block_number)) ≡ some block
    pub requested : in_domain rpc abi c log block ≡ true
    pub present : log.removed ≡ false
    pub decoded : decode abi log c.chain_id (int64 (block.time) *ℤ pos 1000) ≡ ok e

  not_removed : (a b d : Bool) → (a || b || d) ≡ false → a ≡ false
  not_removed a b d h = ground arith

  kept_true : (b : Bool) → not b ≡ false → b ≡ true
  kept_true b h = ground arith

  decode_in-Canonical :
      (next : ℤ) (headers : List Header) (log : Log) (o : Option Header)
      → header_at next headers (int64 (log.block_number)) ≡ o
      → log.removed ≡ false
      → Gives (decode_in rpc abi c log o) (λ e _. Canonical next headers e)
  unfolding decode_in
  decode_in-Canonical next headers log none f r = Gives-fail _
  decode_in-Canonical next headers log (some h) f r = Gives-bind _ _ (Gives-fail_if _ _) λ u domain.
      Gives-bind _ _ (Gives-fail_if _ _) λ v early. record {
        at = λ w e k. record {
          log = log;
          block = h;
          fetched = f;
          requested = kept_true _ domain;
          present = r;
          decoded = (Gives-give (decode abi log c.chain_id (int64 (h.time) *ℤ pos 1000))).at w e k;
        };
      }

  decode_logs-Canonical :
      (logs : List Log) (next : ℤ) (headers : List Header)
      → Gives (decode_logs rpc abi c next headers logs) (λ es _. All (Canonical next headers) es)
  unfolding decode_logs decode_log
  decode_logs-Canonical [] next headers = Gives-return [] (λ w. tt)
  decode_logs-Canonical (log ∷ logs) next headers =
      Gives-bind _ _
        (Gives-bind _ _ (Gives-fail_if _ _) λ u whole.
          decode_in-Canonical next headers log _ refl (not_removed log.removed _ _ whole))
        λ e canonical.
          Gives-bind _ _ (decode_logs-Canonical logs next headers)
            λ es all. Gives-return (e ∷ es) (λ w. (canonical, all))

  -- The events of a batch: decoded ones, all canonical, with the redemptions completed.
  pub record Read (next : ℤ) (headers : List Header) (events : List EscrowEvent) : Type 0 where
    pub decoded : List EscrowEvent
    pub canonical : All (Canonical next headers) decoded
    pub correlated : Correlated decoded events

  pub fetch_events-Read :
      (next last : ℤ) (headers : List Header)
      → Gives (fetch_events rpc abi c next last headers) (λ events _. Read next headers events)
  unfolding fetch_events read_events
  fetch_events-Read next last headers = Gives-bind _ _ (Gives-any _) λ logs u. Gives-during _ _ (
      Gives-bind _ _ (Gives-any _) λ unique v.
        Gives-bind _ _ (decode_logs-Canonical unique next headers) λ decoded canonical.
          Gives-bind _ _ (Gives-give (correlate_redemptions decoded)) λ events e.
            Gives-bind _ _ (Gives-any _) λ again x. Gives-bind _ _ (Gives-any _) λ y z.
              Gives-return events (λ w. record {
                decoded = decoded;
                canonical = canonical;
                correlated = (correlate_redemptions_iff decoded events).0 e;
              }))
