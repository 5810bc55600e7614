-- ===== src/Client/MetaPairs/Tests.antt =====
-- A component's own meta-pair.
use srnp.Base.{◌≡◌, refl, true, [], some, pos, codes, arith}
use srnp.Messages.{Pair, PairType, new_pair}
use srnp.MetaValues.{meta_value}
use srnp.MetaValues.RoundTrip.{parse_meta_value-meta_value}
use srnp.PairSpace.{empty_space, add_pair, copy_of}
use srnp.PairSpace.Preservation.{add_pair-IsSpace}
use srnp.PairSpace.Histories.{run, run_empty-IsSpace}
use srnp.PairSpace.Values.{expiry_or, added-reads}
use srnp.Client.{Client, new_client, get_pair, valid_only}
use srnp.Client.MetaPairs.{meta_target, get_pair_indirectly, set_pair_indirectly, set_meta_pair}
use srnp.Client.MetaPairs.Reads.{
  get_pair_indirectly-set_meta_pair, get_pair_indirectly-set_pair_indirectly,
}

abbrev registered : Client
registered = record (new_client (run empty_space [])) { ready = true; owner_id = pos 7 }

get_pair_indirectly-set_meta_pair_example :
    get_pair_indirectly
      (set_meta_pair registered (pos 5) (pos 7) (codes "m") (pos 8) (codes "tt")).0
      (pos 7)
      (codes "m")
    ≡ get_pair registered (pos 8) (codes "tt")
get_pair_indirectly-set_meta_pair_example =
    get_pair_indirectly-set_meta_pair registered (pos 5) (codes "m") (pos 8) (codes "tt")
      (run_empty-IsSpace [] (omega arith)) refl refl refl (λ e. cc)

abbrev own : Pair
own = new_pair (pos 7) (codes "m") (meta_value (pos 7) (codes "tt")) PairType.string

abbrev pointing : Client
pointing = record registered { space = add_pair (run empty_space []) (pos 5) own }

pointing-names :
    meta_target pointing (pos 7) (codes "m") ≡ some (record { owner = pos 7; key = codes "tt" })
unfolding meta_target get_pair valid_only
pointing-names =
    rw ((added-reads (run empty_space []) (pos 5) own (run_empty-IsSpace [] (omega arith))).0)
      ((parse_meta_value-meta_value (pos 7) (codes "tt") refl refl).0)

get_pair_indirectly-set_pair_indirectly_example :
    (get_pair_indirectly
        (set_pair_indirectly pointing (pos 9) (pos 7) (codes "m") (codes "20")).0
        (pos 7)
        (codes "m")
      ≡ some (record (new_pair (pos 7) (codes "tt") (codes "20") PairType.string) {
        write_time = pos 9;
        expiry_time = expiry_or (copy_of pointing.space (pos 7) (codes "tt")) (pos 0);
      }))
    × (meta_target
          (set_pair_indirectly pointing (pos 9) (pos 7) (codes "m") (codes "20")).0
          (pos 7)
          (codes "m")
        ≡ some (record { owner = pos 7; key = codes "tt" }))
get_pair_indirectly-set_pair_indirectly_example =
    get_pair_indirectly-set_pair_indirectly pointing (pos 9) (codes "m") (codes "20") (codes "tt")
      (add_pair-IsSpace (run empty_space []) (pos 5) own (run_empty-IsSpace [] (omega arith))) refl
      pointing-names (λ e. cc)
