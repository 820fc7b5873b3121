-- ===== src/Sccp.antt =====
-- openbsc/src/osmo-bsc_nat/bsc_sccp.c: the SCCP connections of the NAT, which gives each connection of
-- a base station controller a reference of its own towards the MSC.
--
-- A local reference is the number of its three octets, and a base station controller is a number. The
-- static `last_ref` is part of the state. `none` for a result of the assignment means that the fuel
-- was used up; the fuel is two rounds through all references.
pub mod Assign
pub mod Unique
mod Tests
use openbsc.Base.{
  ℕ, zero, suc, ◌+◌, ◌%◌, Bool, true, false, ◌&&◌, Option, none, some, List, [], ◌∷◌, ◌++◌,
  if◌then◌else◌, ◌==◌,
}

-- `struct nat_sccp_connection`, the references.
pub record Conn : Type 0 where
  pub bsc : ℕ
  pub real_ref : ℕ
  pub patched_ref : ℕ
  pub remote_ref : ℕ
  pub has_remote_ref : Bool

pub record Nat : Type 0 where
  pub sccp_connections : List Conn
  pub last_ref : ℕ

-- What the media gateway is asked for.
pub data Mgcp : Type 0 where
  no_mgcp : Mgcp
  dlcx : Mgcp
  init : Mgcp

-- `sccp_ref_is_free`, which returns 0 for a free reference.
unfoldable pub sccp_ref_is_free : List Conn → ℕ → Bool
sccp_ref_is_free [] ref = true
sccp_ref_is_free (c ∷ cs) ref =
    let rest = sccp_ref_is_free cs ref in if ref == c.patched_ref then false else rest

-- The next value of `last_ref`, and whether it wrapped.
abbrev pub next_ref : ℕ → ℕ × Bool
next_ref last_ref =
    let n = (last_ref + 1) % 4294967296 in
    if n % 16777216 == 16777215 then (0, true) else (n, false)

-- The loop; the result is a free reference, if there is one, and `last_ref`.
unfoldable pub assign_loop : ℕ → List Conn → ℕ → ℕ → Option (Option ℕ × ℕ)
unfolding sccp_ref_is_free
assign_loop zero conns last_ref wrapped = none
assign_loop (suc fuel) conns last_ref wrapped =
    let (last, wraps) = next_ref last_ref in
    let wrapped' = if wraps then wrapped + 1 else wrapped in
    elim (sccp_ref_is_free conns (last_ref % 16777216)) [
      | true ↦ some (some (last_ref % 16777216), last)
      | false ↦ elim (wrapped' == 2) [
        | true ↦ some (none, last)
        | false ↦ assign_loop fuel conns last wrapped'
      ]
    ]

unfoldable pub assign_src_local_reference : Nat → Option (Option ℕ × ℕ)
unfolding assign_loop
assign_src_local_reference nat = assign_loop 33554430 nat.sccp_connections nat.last_ref 0

-- The connection of a controller with its reference is there.
abbrev pub is_conn : ℕ → ℕ → Conn → Bool
is_conn bsc src c = (c.bsc == bsc) && (src == c.real_ref)

unfoldable pub find_conn : List Conn → (Conn → Bool) → Option Conn
find_conn [] test = none
find_conn (c ∷ cs) test = let rest = find_conn cs test in if test c then some c else rest

unfoldable pub remove_conn : List Conn → (Conn → Bool) → List Conn
remove_conn [] test = []
remove_conn (c ∷ cs) test = let rest = remove_conn cs test in if test c then cs else c ∷ rest

-- A connection that the controller sets up anew.
abbrev pub reassign : ℕ → Conn → Conn
reassign ref c = record c { remote_ref = 0; patched_ref = ref }

unfoldable pub reassign_conn : List Conn → (Conn → Bool) → ℕ → List Conn
reassign_conn [] test ref = []
reassign_conn (c ∷ cs) test ref =
    let rest = reassign_conn cs test ref in if test c then reassign ref c ∷ cs else c ∷ rest

abbrev pub Created : Type 0
Created = Option Conn × Nat × Mgcp

abbrev pub new_conn : ℕ → ℕ → ℕ → Conn
new_conn bsc src ref = record {
  bsc = bsc;
  real_ref = src;
  patched_ref = ref;
  remote_ref = 0;
  has_remote_ref = false;
}

-- `create_sccp_src_ref` by the connection that is there and what was assigned.
unfoldable pub create_with : ℕ → ℕ → Option Conn → Option ℕ × ℕ → List Conn → Created
unfolding remove_conn reassign_conn
create_with bsc src (some c) (none, last) conns =
    (none, record { sccp_connections = remove_conn conns (is_conn bsc src); last_ref = last }, dlcx)
create_with bsc src (some c) (some ref, last) conns = (
  some (reassign ref c),
  record { sccp_connections = reassign_conn conns (is_conn bsc src) ref; last_ref = last },
  dlcx,
)
create_with bsc src none (none, last) conns =
    (none, record { sccp_connections = conns; last_ref = last }, no_mgcp)
create_with bsc src none (some ref, last) conns = (
  some (new_conn bsc src ref),
  record { sccp_connections = conns ++ (new_conn bsc src ref ∷ []); last_ref = last },
  init,
)

unfoldable pub create_sccp_src_ref : ℕ → ℕ → Nat → Option Created
unfolding assign_src_local_reference find_conn create_with
create_sccp_src_ref bsc src nat = elim (assign_src_local_reference nat) [
  | none ↦ none
  | some assigned ↦ some (
      create_with bsc src (find_conn nat.sccp_connections (is_conn bsc src)) assigned
        nat.sccp_connections)
]

-- `update_sccp_src_ref`; `none` is -1, and the connection is as before.
unfoldable pub update_sccp_src_ref : Option ℕ → Option ℕ → Conn → Option Conn
update_sccp_src_ref (some dest) (some src) c =
    some (record c { remote_ref = src; has_remote_ref = true })
update_sccp_src_ref none src c = none
update_sccp_src_ref (some dest) none c = none

abbrev pub is_patched : ℕ → Conn → Bool
is_patched ref c = ref == c.patched_ref

unfoldable pub remove_sccp_src_ref : ℕ → Nat → Nat
unfolding remove_conn
remove_sccp_src_ref src nat = record nat {
  sccp_connections = remove_conn nat.sccp_connections (is_patched src);
}

-- The connection of a message to the controller, and its destination afterwards.
unfoldable pub patch_sccp_src_ref_to_bsc : Option ℕ → Nat → Option (Conn × ℕ)
unfolding find_conn
patch_sccp_src_ref_to_bsc none nat = none
patch_sccp_src_ref_to_bsc (some dest) nat =
    elim (find_conn nat.sccp_connections (is_patched dest)) [
      | none ↦ none
      | some c ↦ some (c, c.real_ref)
    ]

abbrev pub is_remote : ℕ → ℕ → Conn → Bool
is_remote bsc dest c = (c.bsc == bsc) && (dest == c.remote_ref)

-- The connection of a message to the MSC, and its source afterwards.
unfoldable pub patch_sccp_src_ref_to_msc : ℕ → Option ℕ → Option ℕ → Nat → Option (Conn × Option ℕ)
unfolding find_conn
patch_sccp_src_ref_to_msc bsc (some src) dest nat =
    elim (find_conn nat.sccp_connections (is_conn bsc src)) [
      | none ↦ none
      | some c ↦ some (c, some c.patched_ref)
    ]
patch_sccp_src_ref_to_msc bsc none (some dest) nat =
    elim (find_conn nat.sccp_connections (is_remote bsc dest)) [
      | none ↦ none
      | some c ↦ some (c, none)
    ]
patch_sccp_src_ref_to_msc bsc none none nat = none

unfoldable pub bsc_nat_find_con_by_bsc : ℕ → Nat → Option Conn
unfolding find_conn
bsc_nat_find_con_by_bsc ref nat = find_conn nat.sccp_connections (λ c. ref == c.real_ref)
