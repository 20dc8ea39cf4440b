-- ===== src/Store/Ingest/Sound.antt =====
-- internal/store/ingest.go: rules for the steps of `Ingest` and the soundness of the ledger.
use clearinghouse_batteries.Base.{String}
use clearinghouse_batteries.Base.Int.{ℤ}
use clearinghouse_batteries.Base.Exec.Keeps.{Keeps}
use clearinghouse_batteries.Db.{UsageEvent}
use clearinghouse_batteries.Db.Tx.Rules.{OfDb}
use clearinghouse_batteries.Store.Summary.{change_metric_count}
use clearinghouse_batteries.Store.Summary.Frame.{change_metric_count-Keeps}
use clearinghouse_batteries.Store.Ledger.Sound.{IsSound}
use clearinghouse_batteries.Store.Manage.Sound.{sound_rules}
use clearinghouse_batteries.Store.Position.{set_checkpoint}
use clearinghouse_batteries.Store.Rematch.{Bucket, move_bucket, rematch}
use clearinghouse_batteries.Store.Ingest.{ingest_next, ingest_offset}
use clearinghouse_batteries.Store.Ingest.Classify.{Codec, Draft, classify}
use clearinghouse_batteries.Store.Ingest.Charge.{insert_usage, exhaust, charge, record_usage}

pub metric_count-Sound :
    (k a b : String) (n : ℤ) → Keeps (OfDb IsSound) (change_metric_count k a b n)
metric_count-Sound = change_metric_count-Keeps (λ f d h. h)

pub set_checkpoint-Sound :
    (source stream : String) (next : ℤ) (hash : String)
    → Keeps (OfDb IsSound) (set_checkpoint source stream next hash)
unfolding set_checkpoint
set_checkpoint-Sound source stream next hash = search sound_rules

move_bucket-Sound : (status : String) (b : Bucket) → Keeps (OfDb IsSound) (move_bucket status b)
unfolding move_bucket
move_bucket-Sound status b = search (sound_rules, metric_count-Sound)

pub rematch-Sound : (pm orch : String) → Keeps (OfDb IsSound) (rematch pm orch)
unfolding rematch
rematch-Sound pm orch = search (sound_rules, move_bucket-Sound) depth 20 fits 2000

insert_usage-Sound : (row : UsageEvent) → Keeps (OfDb IsSound) (insert_usage row)
unfolding insert_usage
insert_usage-Sound row = search sound_rules depth 20 fits 2000

exhaust-Sound : (allocation currency : String) → Keeps (OfDb IsSound) (exhaust allocation currency)
unfolding exhaust
exhaust-Sound allocation currency = search sound_rules depth 20 fits 2000

charge-Sound : (uid : String) (d : Draft) → Keeps (OfDb IsSound) (charge uid d)
unfolding charge
charge-Sound uid d = search (sound_rules, exhaust-Sound, rematch-Sound) depth 20 fits 2000

record_usage-Sound :
    (topic : String) (partition offset : ℤ) (raw : String) (d : Draft)
    → Keeps (OfDb IsSound) (record_usage topic partition offset raw d)
unfolding record_usage
record_usage-Sound topic partition offset raw d =
    search (sound_rules, insert_usage-Sound, charge-Sound, metric_count-Sound) depth 20 fits 2000

classify-Sound : (codec : Codec) (raw : String) → Keeps (OfDb IsSound) (classify codec raw)
unfolding classify
classify-Sound codec raw = search sound_rules

ingest_next-Sound :
    (codec : Codec) (topic : String) (partition offset : ℤ) (raw : String)
    → Keeps (OfDb IsSound) (ingest_next codec topic partition offset raw)
unfolding ingest_next
ingest_next-Sound codec topic partition offset raw =
    search (sound_rules, classify-Sound, record_usage-Sound, set_checkpoint-Sound) depth 20 fits
      2000

pub ingest_offset-Sound :
    (codec : Codec) (topic : String) (partition offset : ℤ) (raw : String)
    → Keeps (OfDb IsSound) (ingest_offset codec topic partition offset raw)
unfolding ingest_offset
ingest_offset-Sound codec topic partition offset raw =
    search (sound_rules, ingest_next-Sound) depth 20 fits 2000
