-- ===== src/ChanAlloc/Places.antt =====
-- openbsc/src/libbsc/chan_alloc.c: reading and writing one channel of a base station, by its place.
use native.Mathlib.Decide.{ℕ_discrete}
use openbsc.Base.{
  ℕ, zero, suc, ◌≡◌, ◌≢◌, ◌∙◌, refl, sym, ap, Option, none, some, List, [], ◌∷◌, get_elem?, arith,
}
use openbsc.ChanAlloc.{Lchan, Bts, Place, bind_option, modify, modify_lchan}

unfoldable pub map_option {ℓ} : {A : Type ℓ} → (A → A) → Option A → Option A
map_option f none = none
map_option f (some a) = some (f a)

unfoldable pub lchan_at : Bts → Place → Option Lchan
unfolding bind_option
lchan_at b p =
    bind_option (get_elem? b.trxs p.trx)
      (λ t. bind_option (get_elem? t.timeslots p.ts) (λ ts. get_elem? ts.lchans p.ss))

module _ {ℓ} {A : Type ℓ} (f : A → A) where
  get_elem?-modify_self :
      (l : List A) (i : ℕ) → get_elem? (modify f l i) i ≡ map_option f (get_elem? l i)
  unfolding modify map_option
  get_elem?-modify_self [] i = refl
  get_elem?-modify_self (x ∷ l) zero = refl
  get_elem?-modify_self (x ∷ l) (suc i) = get_elem?-modify_self l i

  get_elem?-modify_ne : (l : List A) (i j : ℕ) → i ≢ j → get_elem? (modify f l i) j ≡ get_elem? l j
  unfolding modify
  get_elem?-modify_ne [] i j n = refl
  get_elem?-modify_ne (x ∷ l) zero zero n = absurd (n refl)
  get_elem?-modify_ne (x ∷ l) zero (suc j) n = refl
  get_elem?-modify_ne (x ∷ l) (suc i) zero n = refl
  get_elem?-modify_ne (x ∷ l) (suc i) (suc j) n = get_elem?-modify_ne l i j (λ e. n (ap suc e))

-- What is read through an element that was modified.
module _ {ℓ κ} {A : Type ℓ} {B : Type κ} (f : A → A) (g : A → Option B) where
  bind-modify_ne :
      (l : List A) (i j : ℕ)
      → i ≢ j
      → bind_option (get_elem? (modify f l i) j) g ≡ bind_option (get_elem? l j) g
  bind-modify_ne l i j n = ap (λ o. bind_option o g) (get_elem?-modify_ne f l i j n)

  map-same :
      (o : Option A) → ((a : A) → g (f a) ≡ g a) → bind_option (map_option f o) g ≡ bind_option o g
  unfolding bind_option map_option
  map-same none h = refl
  map-same (some a) h = h a

  bind-modify_same :
      (l : List A) (i j : ℕ)
      → ((a : A) → g (f a) ≡ g a)
      → bind_option (get_elem? (modify f l i) j) g ≡ bind_option (get_elem? l j) g
  bind-modify_same l i j h = elim (ℕ_discrete i j) [
    | yes e ↦ rw (sym e, get_elem?-modify_self f l i, map-same (get_elem? l i) h) refl
    | no n ↦ bind-modify_ne l i j n
  ]

module _ {ℓ κ} {A : Type ℓ} {B : Type κ} (f : A → A) (g : A → Option B) (h : B → B) where
  map-through :
      (o : Option A)
      → ((a : A) → g (f a) ≡ map_option h (g a))
      → bind_option (map_option f o) g ≡ map_option h (bind_option o g)
  unfolding bind_option map_option
  map-through none k = refl
  map-through (some a) k = k a

  bind-modify_self :
      (l : List A) (i : ℕ)
      → ((a : A) → g (f a) ≡ map_option h (g a))
      → bind_option (get_elem? (modify f l i) i) g ≡ map_option h (bind_option (get_elem? l i) g)
  bind-modify_self l i k =
      ap (λ o. bind_option o g) (get_elem?-modify_self f l i) ∙ map-through (get_elem? l i) k

pub lchan_at-modify_self :
    (f : Lchan → Lchan) (b : Bts) (p : Place)
    → lchan_at (modify_lchan f b p) p ≡ map_option f (lchan_at b p)
unfolding lchan_at modify_lchan
lchan_at-modify_self f b p =
    bind-modify_self _ _ f b.trxs p.trx
      (λ t. bind-modify_self _ _ f t.timeslots p.ts (λ ts. get_elem?-modify_self f ts.lchans p.ss))

pub lchan_at-modify_ne :
    (f : Lchan → Lchan) (b : Bts) (p q : Place)
    → p ≢ q
    → lchan_at (modify_lchan f b p) q ≡ lchan_at b q
unfolding lchan_at modify_lchan
lchan_at-modify_ne f b p q n = elim (ℕ_discrete p.trx q.trx) [
  | no m ↦ bind-modify_ne _ _ b.trxs p.trx q.trx m
  | yes e ↦ bind-modify_same _ _ b.trxs p.trx q.trx (λ t. elim (ℕ_discrete p.ts q.ts) [
    | no m ↦ bind-modify_ne _ _ t.timeslots p.ts q.ts m
    | yes e' ↦
        bind-modify_same _ _ t.timeslots p.ts q.ts
          (λ ts. get_elem?-modify_ne f ts.lchans p.ss q.ss (λ e''. n (ground (arith, e, e', e''))))
  ])
]
