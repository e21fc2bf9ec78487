-- ===== src/Dr/Action.antt =====
-- Calls that change the world: the catalog, the effects outside in their order, and the local list
-- of what a failover has restored. A call answers or raises, and its effects stay in either case.
pub mod Rules
use immutavault.Json.{Json}
use immutavault.Catalog.Rows.{Db}
use immutavault.Dr.Config.{Workload}
use immutavault.Prelude.{String, Bool, List, [], ◌∷◌, Error, Result, ok, err, raise_if}

-- What happens outside of the catalog. A fence command stands with its success.
pub data Effect : Type 0 where
  fence_ran : Bool → Effect
  fence_verified : Bool → Effect
  fence_confirmed : Effect
  prepared : String → Effect
  activated : String → Effect
  deactivated : String → Effect
  imported : String → Effect
  powered_on : String → Effect
  powered_off : String → Effect

-- the effects stand with the latest first
pub record World : Type 0 where
  pub db : Db
  pub effects : List Effect
  pub restored : List (Workload × Json)

abbrev pub Action {ℓ} : Type ℓ → Type ℓ
Action A = World → Result A × World

-- the rest of a block, unless an exception has been raised
unfoldable pub continue {ℓ κ} :
    {A : Type ℓ} {B : Type κ} → Result A × World → (A → Action B) → Result B × World
continue (ok a, w) f = f a w
continue (err e, w) f = (err e, w)

infixl 5 ◌>>=◌ ◌>>◌
unfoldable pub ◌>>=◌ {ℓ κ} : {A : Type ℓ} {B : Type κ} → Action A → (A → Action B) → Action B
unfolding continue
(m >>= f) w = continue (m w) f

abbrev pub ◌>>◌ {ℓ} : {B : Type ℓ} → Action (Unit {0}) → Action B → Action B
m >> k = m >>= (λ _. k)

unfoldable pub pure {ℓ} : {A : Type ℓ} → A → Action A
pure a w = (ok a, w)

-- an answer that changes nothing
unfoldable pub answer {ℓ} : {A : Type ℓ} → Result A → Action A
answer r w = (r, w)

-- a question to the catalog
unfoldable pub ask {ℓ} : {A : Type ℓ} → (Db → Result A) → Action A
ask f w = (f w.db, w)

-- an effect outside, and its answer
unfoldable pub call {ℓ} : {A : Type ℓ} → Effect → Result A → Action A
call e r w = (r, record w { effects = e ∷ w.effects })

-- a write of the catalog that answers or raises
unfoldable pub write {ℓ} : {A : Type ℓ} → (Db → Result A × Db) → Action A
write f w = ((f w.db).0, record w { db = (f w.db).1 })

unfoldable pub update : (Db → Db) → Action (Unit {0})
update f w = (ok tt, record w { db = f w.db })

unfoldable pub push_restored : Workload × Json → Action (Unit {0})
push_restored x w = (ok tt, record w { restored = x ∷ w.restored })

unfoldable pub restored_latest_first : Action (List (Workload × Json))
restored_latest_first w = (ok w.restored, w)

unfoldable pub clear_restored : Action (Unit {0})
clear_restored w = (ok tt, record w { restored = [] })

abbrev pub guard : Bool → Error → Action (Unit {0})
guard b e = answer (raise_if b e)

-- the answer of a `try`, after its handler where it has raised
unfoldable pub handle {ℓ} :
    {A : Type ℓ} → (Error → Action (Unit {0})) → Result A × World → Result A × World
unfolding continue
handle handler (ok a, w) = (ok a, w)
handle handler (err e, w) = continue (handler e w) (λ _ w'. (err e, w'))

-- `try: … except Exception as exc: … raise`
unfoldable pub on_error {ℓ} : {A : Type ℓ} → Action A → (Error → Action (Unit {0})) → Action A
unfolding handle
on_error m handler w = handle handler (m w)

-- `try: … except Exception: pass`
unfoldable pub ignore_error {ℓ} : {A : Type ℓ} → Action A → Action (Unit {0})
ignore_error m w = (ok tt, (m w).1)
