-- ===== src/Chain/Step/Advance.antt =====
-- internal/chain/listener.go, `Step`: a batch of blocks that is applied.
use clearinghouse_batteries.Base.{String, ◌≡◌, List}
use clearinghouse_batteries.Base.Int.{ℤ, pos, pos_part, ◌+ℤ◌, ◌-ℤ◌, ◌≤ℤ◌, ◌<ℤ◌}
use clearinghouse_batteries.Base.Lists.{length}
use clearinghouse_batteries.Base.Exec.{ok}
use clearinghouse_batteries.Base.Exec.Keeps.{Keeps}
use clearinghouse_batteries.Db.{Db, World}
use clearinghouse_batteries.Db.Tx.{Tx}
use clearinghouse_batteries.Store.Position.{next_position}
use clearinghouse_batteries.Store.Settlements.Events.{Block, EscrowEvent}
use clearinghouse_batteries.Store.Settlements.Apply.{apply_chain}
use clearinghouse_batteries.Chain.Logs.{Abi}
use clearinghouse_batteries.Chain.Config.{Config, stream}
use clearinghouse_batteries.Chain.Polling.{Rpc, Header}
use clearinghouse_batteries.Chain.Polling.Gives.{Gives}
use clearinghouse_batteries.Chain.Batch.Canonical.{Linked, Read}

abbrev AnyDb : Db → Type 0
AnyDb db = Unit

module _ (name : String) where
  abbrev At : ℤ → Db → Type 0
  At n db = next_position "chain" name db ≡ n

module _ (rpc : Rpc) (abi : Abi) (c : Config) where
  -- A batch that the store has taken: the headers of its blocks, linked to each other and to the
  -- block before, and the events read from them.
  pub record Applied (next : ℤ) (hash : String) (last : ℤ) (after : World) : Type 0 where
    pub headers : List Header
    pub batch : List Block
    pub events : List EscrowEvent
    pub before : World
    pub whole : length headers ≡ pos_part (last -ℤ next +ℤ pos 1)
    pub linked : Linked hash next headers batch
    pub read : Read rpc abi c next headers events
    pub taken : apply_chain (stream c) batch events c.lookback before ≡ (ok tt, after)

  -- What progress of the listener means.
  pub record Advanced (next : ℤ) (hash : String) (confirmed : ℤ) (after : World) : Type 0 where
    pub last : ℤ
    pub starts : next ≤ℤ last
    pub is_confirmed : last ≤ℤ confirmed
    pub is_bounded : last <ℤ next +ℤ c.batch_size
    pub applied : Applied next hash last after
    pub position : next_position "chain" (stream c) after.db ≡ last +ℤ pos 1
