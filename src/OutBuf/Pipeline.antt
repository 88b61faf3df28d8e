-- ===== src/OutBuf/Pipeline.antt =====
-- audio/outputs/out_buf.cpp: the bytes of a buffer in their order, and a round of `put`.
use mocf.Base.{
  ℕ, zero, suc, ◌≡◌, refl, sym, ap, ◌∙◌, Bool, true, false, some, List, [], ◌∷◌, ◌++◌, length, take,
  drop, min, arith, take-append-drop, drop-nil, subst, if◌then◌else◌,
}
use mathlib.Core.List.{append_assoc}
use mocf.Fifo.{Fifo, space}
use mocf.Fifo.Contents.{IsValid, contents}
use mocf.Fifo.Put.{put-contents}
use mocf.OutBuf.{OutBuf, Place, put_some}

-- The bytes that the thread has taken and not yet sent.
abbrev pub under_way : Place → List ℕ
under_way (Place.sending bytes) = bytes
under_way _ = []

-- All bytes of a buffer in their order: played, under way, held, and still to be put.
abbrev pub pipeline : OutBuf → List ℕ
pipeline b = b.played ++ (under_way b.place ++ (contents b.fifo ++ b.unsent))

-- A buffer that works: its ring is valid, and it is not stopped.
pub record IsRunning (b : OutBuf) : Type 0 where
  pub valid : IsValid b.fifo
  pub going : b.is_stopped ≡ false

pub some_inj {ℓ} : {A : Type ℓ} {a b : A} → some a ≡ some b → a ≡ b
some_inj e = cc

drop-min : (n : ℕ) (xs : List ℕ) → drop (min (length xs) n) xs ≡ drop n xs
drop-min n [] = drop-nil (min 0 n) ∙ sym (drop-nil n)
drop-min zero (x ∷ xs) =
    let e : min (length (x ∷ xs)) 0 ≡ 0 = omega arith in ap (λ (k : ℕ). drop k (x ∷ xs)) e
drop-min (suc n) (x ∷ xs) =
    let e : min (length (x ∷ xs)) (suc n) ≡ suc (min (length xs) n) = omega arith in
    ap (λ (k : ℕ). drop k (x ∷ xs)) e ∙ drop-min n xs

pub put_some-flow :
    (b b' : OutBuf) → IsRunning b → put_some b ≡ some b' → IsRunning b' × (pipeline b' ≡ pipeline b)
unfolding put_some
put_some-flow b b' h e =
    let (ring, done, held, valid, size) = put-contents b.fifo b.unsent h.valid in
    let n : ℕ = min (length b.unsent) (space b.fifo) in
    let after : OutBuf = record b { fifo = ring; unsent = drop n b.unsent } in
    let computed : put_some b ≡ some after = rw (h.going, put_some, done) refl in
    let whole : contents ring ++ drop n b.unsent ≡ contents b.fifo ++ b.unsent =
      ap (λ (r : List ℕ). r ++ drop n b.unsent) held
      ∙ append_assoc (contents b.fifo) (take (space b.fifo) b.unsent) (drop n b.unsent)
      ∙ ap (λ (r : List ℕ). contents b.fifo ++ (take (space b.fifo) b.unsent ++ r))
          (drop-min (space b.fifo) b.unsent)
      ∙ ap (λ (r : List ℕ). contents b.fifo ++ r) (take-append-drop (space b.fifo) b.unsent) in
    subst (λ (z : OutBuf). IsRunning z × (pipeline z ≡ pipeline b)) (some_inj (sym computed ∙ e))
      (
        record { valid = valid; going = h.going },
        ap (λ (r : List ℕ). b.played ++ (under_way b.place ++ r)) whole,
      )

pub either_idle :
    (c : Bool) (p q : Place)
    → under_way p ≡ []
    → under_way q ≡ []
    → under_way (if c then p else q) ≡ []
either_idle true p q e e' = e
either_idle false p q e e' = e'

-- A step that leaves the bytes alone.
pub quiet :
    (b z : OutBuf)
    → IsRunning b
    → z.fifo ≡ b.fifo
    → z.is_stopped ≡ b.is_stopped
    → z.unsent ≡ b.unsent
    → z.played ≡ b.played
    → under_way z.place ≡ under_way b.place
    → IsRunning z × (pipeline z ≡ pipeline b)
quiet b z h f s u p w = (
  record { valid = subst IsValid (sym f) h.valid; going = s ∙ h.going },
  ap (λ (r : List ℕ). r ++ (under_way z.place ++ (contents z.fifo ++ z.unsent))) p
      ∙ ap (λ (r : List ℕ). b.played ++ (r ++ (contents z.fifo ++ z.unsent))) w
      ∙ ap (λ (r : Fifo). b.played ++ (under_way b.place ++ (contents r ++ z.unsent))) f
      ∙ ap (λ (r : List ℕ). b.played ++ (under_way b.place ++ (contents b.fifo ++ r))) u,
)
