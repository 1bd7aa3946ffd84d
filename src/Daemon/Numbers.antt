-- ===== src/Daemon/Numbers.antt =====
-- Numbers taken by parts of the daemon, and the messages that have them.
use agentra.Base.{
  ℕ, suc, ◌+◌, ◌≤◌, ◌<◌, ◌≡◌, ◌^◌, refl, ap, Bool, false, List, [], ◌∷◌, ◌++◌, Option, none, some,
  Text, arith, if◌then◌else◌, ◌==◌, leb, length, is_empty, ◌&&◌,
}
use mathlib.Core.List.{append-nil}
use agentra.Lifecycle.Transitions.{ℤ, pos, negsuc}
use agentra.Daemon.Output.{TaskMessage, Output, to_int32, numbered, with_chunks, send}

-- All that was put into a batch, sent or not.
unfoldable pub all_of : List (List TaskMessage) → List TaskMessage → List TaskMessage
all_of [] batch = batch
all_of (b ∷ bs) batch = b ++ all_of bs batch

abbrev pub is_pos : ℕ → ℤ → Bool
is_pos k (pos n) = n == k
is_pos k (negsuc n) = false

-- How many messages have the number `k`.
unfoldable pub count_seq : ℕ → List TaskMessage → ℕ
count_seq k [] = 0
count_seq k (m ∷ ms) = if is_pos k m.seq then suc (count_seq k ms) else count_seq k ms

unfoldable pub count_all : ℕ → Output → ℕ
unfolding count_seq all_of
count_all k o = count_seq k (all_of o.sent o.batch)

-- 1 for a number from 1 to `n`.
abbrev pub taken : ℕ → ℕ → ℕ
taken k n = if leb 1 k && leb k n then 1 else 0

pub to_int32_small : (n : ℕ) → n < 2 ^ 31 → to_int32 n ≡ pos n
unfolding to_int32
to_int32_small n h = ground arith

count_seq-append :
    (k : ℕ) (xs ys : List TaskMessage) → count_seq k (xs ++ ys) ≡ count_seq k xs + count_seq k ys
unfolding count_seq
count_seq-append k [] ys = omega arith
count_seq-append k (x ∷ xs) ys = ground (arith, count_seq-append k xs ys)

pub all_of-append :
    (bs : List (List TaskMessage)) (b : List TaskMessage) → all_of (bs ++ b ∷ []) [] ≡ all_of bs b
unfolding all_of
all_of-append [] b = append-nil b
all_of-append (c ∷ cs) b = ap (λ r. c ++ r) (all_of-append cs b)

pub count_seq-all_of :
    (k : ℕ) (bs : List (List TaskMessage)) (xs ys : List TaskMessage)
    → count_seq k (all_of bs (xs ++ ys)) ≡ count_seq k (all_of bs xs) + count_seq k ys
unfolding all_of
count_seq-all_of k [] xs ys = count_seq-append k xs ys
count_seq-all_of k (b ∷ bs) xs ys = omega (
  arith,
  count_seq-all_of k bs xs ys,
  count_seq-append k b (all_of bs (xs ++ ys)),
  count_seq-append k b (all_of bs xs),
)

count_seq-numbered :
    (k n : ℕ) (type : Text) (cs : List Text)
    → n + length cs < 2 ^ 31
    → count_seq k (numbered n type cs) + taken k n ≡ taken k (n + length cs)
unfolding numbered count_seq
count_seq-numbered k n type [] h = ground arith
count_seq-numbered k n type (c ∷ cs) h =
    ground (arith, to_int32_small (n + 1), count_seq-numbered k (n + 1) type cs)

-- What is done to an output takes numbers upwards, and gives each of them to one message.
pub record Numbers (o o' : Output) : Type 0 where
  pub grows : o.seq ≤ o'.seq
  pub exact :
      o'.seq < 2 ^ 31 → (k : ℕ) → count_all k o' + taken k o.seq ≡ count_all k o + taken k o'.seq

pub Numbers-refl : (o : Output) → Numbers o o
Numbers-refl o = record { grows = omega arith; exact = λ h k. refl }

pub Numbers-trans : (a b c : Output) → Numbers a b → Numbers b c → Numbers a c
Numbers-trans a b c p q = record {
  grows = omega (arith, p.grows, q.grows);
  exact = λ h k. omega (arith, p.exact (omega (arith, q.grows)) k, q.exact h k);
}

pub with_chunks-Numbers :
    (type : Text) (parts : Option (List Text)) (o : Output) → Numbers o (with_chunks type parts o)
unfolding count_all
with_chunks-Numbers type none o = Numbers-refl o
with_chunks-Numbers type (some parts) o = record {
  grows = omega arith;
  exact = λ h k. omega (
    arith,
    count_seq-all_of k o.sent o.batch (numbered o.seq type parts),
    count_seq-numbered k o.seq type parts h,
  );
}

-- The counter, the batch and what was sent are all that counts.
pub same-Numbers :
    (o a b : Output)
    → a.seq ≡ b.seq
    → a.batch ≡ b.batch
    → a.sent ≡ b.sent
    → Numbers o a
    → Numbers o b
unfolding count_all
same-Numbers o a b e f g n = record {
  grows = omega (arith, n.grows, e);
  exact = λ h k.
      let counted = n.exact (omega (arith, e)) k in
      let moved : count_all k a ≡ count_all k b = λ i. count_seq k (all_of (g i) (f i)) in
      omega (arith, counted, e, moved, ap (taken k) e);
}

emptied :
    (b : List TaskMessage) (o : Output)
    → o.batch ≡ b
    → (if is_empty b then o else record o { batch = []; sent = o.sent ++ b ∷ [] }).batch ≡ []
emptied [] o e = e
emptied (m ∷ ms) o e = refl

pub sent_empty : (o : Output) → (send o).batch ≡ []
sent_empty o = emptied o.batch o refl
