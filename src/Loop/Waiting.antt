-- ===== src/Loop/Waiting.antt =====
-- How many events of the outbox the loop's consumer has yet to receive.
use agentra.Base.{
  ℕ, suc, ◌≤◌, ◌<◌, ◌≡◌, true, false, ◌||◌, List, [], ◌∷◌, ◌++◌, some, arith, inl, inr, Bool-cases,
  if◌then◌else◌, ◌==◌, ==_refl,
}
use agentra.Store.Rows.{EventRow}
use agentra.Store.Tx.{Db}
use agentra.Store.Consumer.{claimable, first_claimable, received}

-- The events of a list without a receipt.
abbrev pub waiting : List ℕ → List EventRow → ℕ
waiting receipts [] = 0
waiting receipts (e ∷ es) =
    let rest = waiting receipts es in if received receipts e.id then rest else suc rest

received_snoc : (rs : List ℕ) (id x : ℕ) → received (rs ++ id ∷ []) x ≡ (received rs x || (id == x))
received_snoc [] id x = ground arith
received_snoc (r ∷ rs) id x = ground (arith, received_snoc rs id x)

waiting_snoc_le :
    (rs : List ℕ) (id : ℕ) (es : List EventRow) → waiting (rs ++ id ∷ []) es ≤ waiting rs es
waiting_snoc_le rs id [] = omega arith
waiting_snoc_le rs id (e ∷ es) = ground (arith, received_snoc rs id e.id, waiting_snoc_le rs id es)

pub claimable_not_received :
    (db : Db) (e : EventRow) → claimable db e ≡ true → received db.receipts e.id ≡ false
unfolding claimable
claimable_not_received db e h = ground arith

pub first_claimable-some :
    (db : Db) (es : List EventRow) (e : EventRow)
    → first_claimable db es ≡ some e
    → claimable db e ≡ true
unfolding first_claimable
first_claimable-some db [] e h = cc
first_claimable-some db (x ∷ es) e h = elim (Bool-cases (claimable db x)) [
  | inl c ↦ ground arith
  | inr n ↦ first_claimable-some db es e (ground arith)
]

-- A receipt for the first claimable event leaves fewer to wait.
pub waiting_first :
    (db : Db) (es : List EventRow) (e : EventRow)
    → first_claimable db es ≡ some e
    → waiting (db.receipts ++ e.id ∷ []) es < waiting db.receipts es
unfolding first_claimable
waiting_first db [] e h = cc
waiting_first db (x ∷ es) e h = elim (Bool-cases (claimable db x)) [
  | inl c ↦ ground (
    arith,
    received_snoc db.receipts e.id x.id,
    claimable_not_received db x c,
    ==_refl x.id,
    waiting_snoc_le db.receipts e.id es,
  )
  | inr n ↦
      ground (arith, received_snoc db.receipts e.id x.id, waiting_first db es e (ground arith))
]
