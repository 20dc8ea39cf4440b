-- ===== src/Chain/Step/Sound.antt =====
-- internal/chain/listener.go: what a listener keeps of the store that it feeds.
use clearinghouse_batteries.Db.{Db}
use clearinghouse_batteries.Db.Tx.Always.{Always}
use clearinghouse_batteries.Store.Ledger.Sound.{Sound}
use clearinghouse_batteries.Chain.Config.{Config}
use clearinghouse_batteries.Chain.Polling.Steady.{Steady}
