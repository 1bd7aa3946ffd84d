-- ===== src/Store/Io.antt =====
-- Code that runs statements one after another, each committed by itself, so that what ran before an
-- error stays; and the same code inside a transaction, which takes it back.
use agentra.Base.{Bool, true, false}
use agentra.Store.Tx.{Query, Tx, Db, Error, Result, ok, err, db_error}

abbrev pub Io {ℓ} : Type ℓ → Type ℓ
Io A = Db → Result A × Db

infixl 5 ◌>>=◌ ◌>>◌
abbrev pub ◌>>=◌ {ℓ κ} : {A : Type ℓ} {B : Type κ} → Io A → (A → Io B) → Io B
◌>>=◌ m f db = let r = m db in elim r.0 [ ok a ↦ f a r.1 | err e ↦ (err e, r.1) ]

abbrev pub ◌>>◌ {ℓ κ} : {A : Type ℓ} {B : Type κ} → Io A → Io B → Io B
m >> k = m >>= λ _. k

abbrev pub return {ℓ} : {A : Type ℓ} → A → Io A
return a db = (ok a, db)

abbrev pub throw {ℓ} : {A : Type ℓ} → Error → Io A
throw e db = (err e, db)

abbrev pub check : Bool → Error → Io (Unit {0})
check true e db = (ok tt, db)
check false e db = (err e, db)

-- One statement.
abbrev pub run {ℓ} : {A : Type ℓ} → Tx A → Io A
run m db = elim (m db) [ ok (a, db') ↦ (ok a, db') | err e ↦ (err e, db) ]

-- Begin, the code, and Commit; any error leaves the database as it was.
unfoldable pub atomically {ℓ} : {A : Type ℓ} → Io A → Io A
atomically m db = elim (db.fails Query.begin) [
  | true ↦ (err (db_error Query.begin), db)
  | false ↦
      let r = m db in
      elim r.0 [
        | ok a ↦ elim (r.1.fails Query.commit) [
          | true ↦ (err (db_error Query.commit), db)
          | false ↦ (ok a, r.1)
        ]
        | err e ↦ (err e, db)
      ]
]
