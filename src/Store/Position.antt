-- ===== src/Store/Position.antt =====
-- internal/store/store.go: ingestion checkpoints.
use clearinghouse_batteries.Base.{String, concat, Option, none, some, Bool, ◌&&◌, ◌==◌}
use clearinghouse_batteries.Base.Int.{ℤ, pos}
use clearinghouse_batteries.Base.Lists.{find, upsert}
use clearinghouse_batteries.Base.Text.{sprint}
use clearinghouse_batteries.Db.{Db, Checkpoint}
use clearinghouse_batteries.Db.Tx.{Tx, query, execute}

abbrev pub is_stream : String → String → Checkpoint → Bool
is_stream source stream row = row.source == source && row.stream == stream

unfoldable pub checkpoint : String → String → Tx (Option Checkpoint)
checkpoint source stream = query (λ db. find (is_stream source stream) db.checkpoints)

abbrev pub stored_checkpoint : String → String → ℤ → String → Db → Db
stored_checkpoint source stream next hash db = record db {
  checkpoints =
      upsert (is_stream source stream) (λ r. record r { next_position = next; block_hash = hash })
        (record { source = source; stream = stream; next_position = next; block_hash = hash })
        db.checkpoints;
}

unfoldable pub set_checkpoint : String → String → ℤ → String → Tx (Unit {0})
set_checkpoint source stream next hash = execute (stored_checkpoint source stream next hash)

-- The position of a stream; a stream that has none starts at zero.
abbrev pub position_of : Option Checkpoint → ℤ
position_of none = pos 0
position_of (some c) = c.next_position

unfoldable pub next_position : String → String → Db → ℤ
next_position source stream db = position_of (find (is_stream source stream) db.checkpoints)

-- internal/store/ingest.go.
unfoldable pub kafka_stream : String → ℤ → String
kafka_stream topic partition = concat (concat topic ":") (sprint partition)
