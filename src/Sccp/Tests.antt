-- ===== src/Sccp/Tests.antt =====
-- Two controllers that use the same reference, and each theorem at them.
use openbsc.Base.{◌≡◌, refl, none, some, [], ◌∷◌, arith}
use openbsc.Sccp.{
  Nat, Created, init, new_conn, sccp_ref_is_free, assign_loop, assign_src_local_reference,
  find_conn, remove_conn, reassign_conn, create_with, create_sccp_src_ref, remove_sccp_src_ref,
  patch_sccp_src_ref_to_bsc, patch_sccp_src_ref_to_msc,
}
use openbsc.Sccp.Assign.{IsAssigned, assign_src_local_reference-IsAssigned}
use openbsc.Sccp.Unique.{Different, IsUnique, create_sccp_src_ref-IsUnique, patch_sccp_src_ref_lem}

program : Unit {0}
unfolding sccp_ref_is_free assign_loop assign_src_local_reference find_conn remove_conn
    reassign_conn create_with create_sccp_src_ref remove_sccp_src_ref patch_sccp_src_ref_to_bsc
    patch_sccp_src_ref_to_msc
program = tt

-- One connection, of controller 1 with its reference 5.
abbrev nat : Nat
nat = record { sccp_connections = new_conn 1 5 327680 ∷ []; last_ref = 327680 }

abbrev two : Nat
two = record {
  sccp_connections = new_conn 1 5 327680 ∷ new_conn 2 5 327681 ∷ [];
  last_ref = 327682;
}

created : create_sccp_src_ref 2 5 nat ≡ some (some (new_conn 2 5 327681), two, init)
unfolding program
created = refl

nat-IsUnique : IsUnique nat
unfolding Different
nat-IsUnique = record { different = (tt, tt); in_range = omega arith }

two-IsUnique : IsUnique two
unfolding Different
two-IsUnique = record { different = ((λ e. omega arith, tt), (tt, tt)); in_range = omega arith }

assign_src_local_reference-IsAssigned_example :
    IsAssigned nat.sccp_connections (assign_src_local_reference nat)
assign_src_local_reference-IsAssigned_example =
    assign_src_local_reference-IsAssigned nat (omega arith)

create_sccp_src_ref-IsUnique_example :
    ((r : Created) × (create_sccp_src_ref 2 5 nat ≡ some r) × IsUnique r.1)
    × IsUnique (remove_sccp_src_ref 5 nat)
create_sccp_src_ref-IsUnique_example = create_sccp_src_ref-IsUnique nat 2 5 nat-IsUnique

patch_sccp_src_ref_lem_example :
    (patch_sccp_src_ref_to_bsc (some 327681) two ≡ some (new_conn 2 5 327681, 5))
    × ((new_conn 2 5 327681).bsc ≡ 2)
unfolding program
patch_sccp_src_ref_lem_example =
    patch_sccp_src_ref_lem two 2 5 none (new_conn 2 5 327681) 327681 two-IsUnique refl
