-- ===== src/Paging/Area.antt =====
-- openbsc/src/libbsc/paging.c: `paging_request` and `paging_request_stop` over the base stations of
-- the network, and `gsm_bts_by_lac` of openbsc/src/libcommon/gsm_data.c, which chooses them.
use mathlib.Core.Path.{subst}
use openbsc.Base.{
  ℕ, ◌+◌, ◌≡◌, ◌∙◌, refl, sym, ap, ap₂, ◌⊎◌, inl, inr, Bool, true, false, not, ◌&&◌, ◌||◌, Option,
  none, some, List, [], ◌∷◌, ◌++◌, if◌then◌else◌, ◌==◌, arith,
}
use openbsc.ChanAlloc.{trx_is_usable}
use openbsc.Paging.{
  ChanNeed, Request, State, Env, paging_schedule_if_needed, paging_init_if_needed,
  paging_pending_request, add_request, Paged, unusable, pending, requested, paging_request_bts,
  Answer, paging_request_stop, is_empty,
}

pub record Cell : Type 0 where
  pub nr : ℕ
  pub location_area_code : ℕ
  pub env : Env
  pub paging : State

-- The test of `gsm_bts_by_lac`; 0xfffe stands for every base station.
abbrev pub in_area : ℕ → Cell → Bool
in_area lac c = (lac == 65534) || (c.location_area_code == lac)

unfoldable pub request_cell : Cell → Paged → Cell × ℕ
request_cell c unusable = (c, 0)
request_cell c pending = (c, 1)
request_cell c (requested t) = (record c { paging = t }, 1)

-- `paging_request`: the base stations afterwards, and how many of them page.
unfoldable pub paging_request : ℕ → ℕ → ChanNeed → Option ℕ → List Cell → List Cell × ℕ
unfolding request_cell
paging_request lac bsub type cbfn [] = ([], 0)
paging_request lac bsub type cbfn (c ∷ cs) =
    let (rest, n) = paging_request lac bsub type cbfn cs in
    let (c', m) = request_cell c (paging_request_bts c.env c.paging bsub type cbfn) in
    if in_area lac c then (c' ∷ rest, m + n) else (c ∷ rest, n)

unfoldable pub is_first : Option ℕ → Cell → Bool
is_first none c = false
is_first (some k) c = k == c.nr

-- `paging_request_stop`: the base station with the connection, if any, and then silently the others.
-- At most one callback is called, the one of the base station with the connection.
unfoldable pub stop_cells : Option ℕ → ℕ → Bool → List Cell → List Cell × Option (ℕ × Answer)
unfolding is_first
stop_cells first bsub conn [] = ([], none)
stop_cells first bsub conn (c ∷ cs) =
    let (rest, later) = stop_cells first bsub conn cs in
    let (t, answer) = paging_request_stop c.paging bsub (is_first first c && conn) in
    (record c { paging = t } ∷ rest, elim answer [ some a ↦ some a | none ↦ later ])

-- The base stations that page for a location area: those of the area that are in operation.
abbrev pub pages : ℕ → Cell → Bool
pages lac c = in_area lac c && trx_is_usable c.env.bts.is_ipaccess c.env.c0

abbrev pub has_request : ℕ → Cell → Bool
has_request bsub c = paging_pending_request c.paging.pending_requests bsub

unfoldable pub count : (Cell → Bool) → List Cell → ℕ
count p [] = 0
count p (c ∷ cs) = let rest = count p cs in if p c then 1 + rest else rest

-- The base stations before and after, one by one.
unfoldable pub Each : (Cell → Cell → Type 0) → List Cell → List Cell → Type 0
Each R [] [] = Unit
Each R (c ∷ cs) (d ∷ ds) = R c d × Each R cs ds
Each R _ _ = ⊥

pending_last :
    (rs : List Request) (r : Request) → paging_pending_request (rs ++ (r ∷ [])) r.bsub ≡ true
unfolding paging_pending_request
pending_last [] r = ground arith
pending_last (x ∷ rs) r = ground (arith, pending_last rs r)

scheduled :
    (s : State) (b : ℕ)
    → paging_pending_request (paging_schedule_if_needed s).pending_requests b
      ≡ paging_pending_request s.pending_requests b
unfolding paging_schedule_if_needed
scheduled s b = if_pending (is_empty s.pending_requests)
  where
    if_pending :
        (c : Bool)
        → paging_pending_request
            (if c then s else record s { work_timer = true }).pending_requests
            b
          ≡ paging_pending_request s.pending_requests b
    if_pending true = refl
    if_pending false = refl

init_pending :
    (s : State) (b : ℕ)
    → paging_pending_request (paging_init_if_needed s).pending_requests b ≡ true
    → paging_pending_request s.pending_requests b ≡ true
unfolding paging_init_if_needed paging_pending_request
init_pending s b e = if_init s.is_initialized e
  where
    if_init :
        (c : Bool)
        → paging_pending_request
            (if c then s else record s {
              is_initialized = true;
              pending_requests = [];
              available_slots = 20;
            }).pending_requests
            b
          ≡ true
        → paging_pending_request s.pending_requests b ≡ true
    if_init true e = e
    if_init false e = cc

cell_case :
    (c : Cell) (u p : Bool) (t : State) (bsub : ℕ)
    → u ≡ true
    → (p ≡ true → has_request bsub c ≡ true)
    → paging_pending_request t.pending_requests bsub ≡ true
    → let x : Cell × ℕ = request_cell c (
        if not u
        then unusable
        else elim (if p then none else some t) as (λ (o : Option State). Paged) [
          | none ↦ pending
          | some v ↦ requested v
        ]) in
      (x.1 ≡ 1) × (has_request bsub x.0 ≡ true)
unfolding request_cell
cell_case c true true t bsub e h k = (refl, h refl)
cell_case c true false t bsub e h k = (refl, k)
cell_case c false p t bsub e h k = cc

-- What a base station in operation does with the request.
requested_cell :
    (c : Cell) (bsub : ℕ) (type : ChanNeed) (cbfn : Option ℕ)
    → trx_is_usable c.env.bts.is_ipaccess c.env.c0 ≡ true
    → ((request_cell c (paging_request_bts c.env c.paging bsub type cbfn)).1 ≡ 1)
      × (has_request bsub (request_cell c (paging_request_bts c.env c.paging bsub type cbfn)).0
          ≡ true)
unfolding paging_request_bts add_request
requested_cell c bsub type cbfn u =
    cell_case c (trx_is_usable c.env.bts.is_ipaccess c.env.c0)
      (paging_pending_request (paging_init_if_needed c.paging).pending_requests bsub) _ bsub u
      (init_pending c.paging bsub)
      (scheduled _ bsub ∙ pending_last (paging_init_if_needed c.paging).pending_requests _)

unusable_cell :
    (c : Cell) (bsub : ℕ) (type : ChanNeed) (cbfn : Option ℕ)
    → trx_is_usable c.env.bts.is_ipaccess c.env.c0 ≡ false
    → request_cell c (paging_request_bts c.env c.paging bsub type cbfn) ≡ (c, 0)
unfolding paging_request_bts request_cell
unusable_cell c bsub type cbfn u = rw u refl

-- The base station pages for the subscriber, or it is left as it was.
abbrev pub ServedIf : Bool → ℕ → Cell → Cell → Type 0
ServedIf p bsub c d = ((p ≡ true) × (has_request bsub d ≡ true)) ⊎ ((p ≡ false) × (d ≡ c))

abbrev pub Served : ℕ → ℕ → Cell → Cell → Type 0
Served lac bsub c d = ServedIf (pages lac c) bsub c d

head_case :
    (a u : Bool) (bsub : ℕ) (c : Cell) (x : Cell × ℕ) (rest : List Cell × ℕ) (k : ℕ)
    → (u ≡ true → (x.1 ≡ 1) × (has_request bsub x.0 ≡ true))
    → (u ≡ false → x ≡ (c, 0))
    → rest.1 ≡ k
    → let y : List Cell × ℕ = if a then (x.0 ∷ rest.0, x.1 + rest.1) else (c ∷ rest.0, rest.1) in
      (y.1 ≡ (if a && u then 1 + k else k))
      × (d : Cell) × (y.0 ≡ d ∷ rest.0)
      × ServedIf (a && u) bsub c d
head_case true true bsub c x rest k h g e =
    (ap₂ (λ m n. m + n) (h refl).0 e, x.0, refl, inl (refl, (h refl).1))
head_case true false bsub c x rest k h g e = (
  ap (λ (z : Cell × ℕ). z.1 + rest.1) (g refl) ∙ omega (arith, e),
  x.0,
  refl,
  inr (refl, ap (λ (z : Cell × ℕ). z.0) (g refl)),
)
head_case false u bsub c x rest k h g e = (e, c, refl, inr (refl, refl))

-- paging_request returns the number of the base stations of the area in operation, leaves in each
-- of these a pending request for the subscriber, and leaves every other base station as it was.
pub paging_request_lem :
    (lac bsub : ℕ) (type : ChanNeed) (cbfn : Option ℕ) (cs : List Cell)
    → ((paging_request lac bsub type cbfn cs).1 ≡ count (pages lac) cs)
      × Each (Served lac bsub) cs (paging_request lac bsub type cbfn cs).0
unfolding paging_request count Each
paging_request_lem lac bsub type cbfn [] = (refl, tt)
paging_request_lem lac bsub type cbfn (c ∷ cs) =
    let (n, each) = paging_request_lem lac bsub type cbfn cs in
    let (total, d, same, served) =
      head_case (in_area lac c) (trx_is_usable c.env.bts.is_ipaccess c.env.c0) bsub c
        (request_cell c (paging_request_bts c.env c.paging bsub type cbfn))
        (paging_request lac bsub type cbfn cs) (count (pages lac) cs)
        (requested_cell c bsub type cbfn) (unusable_cell c bsub type cbfn) n in
    (total, subst (Each (Served lac bsub) (c ∷ cs)) (sym same) (served, each))
