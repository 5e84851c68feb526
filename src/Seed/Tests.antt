-- ===== src/Seed/Tests.antt =====
-- Seeding the chart of accounts of the ledger's tests, which holds the clearing account already.
use payments_engine.Base.{◌+◌, ◌≡◌, refl}
use payments_engine.Base.Int.{ℤ}
use payments_engine.Decimal.Scaled.{scaled}
use payments_engine.Error.{ok}
use payments_engine.Exec.{◌>>=◌, pure, lift, within, try}
use payments_engine.Exec.Ends.{Ends}
use payments_engine.Ledger.Tests.{calm}
use payments_engine.Seed.{
  seed, base_coa, seed_roots, seed_children, ensure_account, account_exists_by_code,
  get_account_id_by_code, insert_account,
}
use payments_engine.Seed.Laws.{seed_again}
use payments_engine.Store.{Env, query, statement}
use payments_engine.Transfer.Tests.{world}
use payments_engine.World.{World, begin_tx, on_tx, commit, rollback, deferred}

-- identifiers that no row has yet
abbrev apart : Env
apart = record calm { fresh = λ n. n + 100 }

abbrev seeded : World ℤ
seeded = (seed apart world).1

-- seven of the eight accounts are new
seven : seed apart world ≡ (ok 7, seeded)
unfolding seed base_coa seed_roots seed_children ensure_account account_exists_by_code
    get_account_id_by_code insert_account query statement begin_tx on_tx commit rollback deferred
    within lift try pure ◌>>=◌
seven = refl

seed_again_example :
    Ends
      (λ m (v : World ℤ). (m ≡ 0) × (v.db ≡ seeded.db))
      (λ v. v.db ≡ seeded.db)
      (seed apart seeded)
seed_again_example = seed_again apart apart world seeded 7 seven
