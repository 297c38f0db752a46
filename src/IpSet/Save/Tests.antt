-- ===== src/IpSet/Save/Tests.antt =====
-- `parse_ipset_save` at concrete outputs of `ipset save`.
use kube_router.Prelude.{◌≡◌, refl, List, none, some, [], ◌∷◌}
use kube_router.Prelude.Text.{split}
use kube_router.Dict.{lookup, insert}
use kube_router.IpSet.Save.{parse_ipset_save, scrub_init_val_from_options}
use kube_router.IpSet.Save.RoundTrip.{
  Saved, save_text, table, WellFormed, parse_ipset_save-save_text,
}
use kube_router.Prelude.Text.Split.{lacks}

parse_one :
    parse_ipset_save "create foo hash:ip initval 0x1 timeout 0\nadd foo 1.1.1.1 timeout 0\n"
    ≡ some (
        (
          "foo",
          record {
            name = "foo";
            entries = ("1.1.1.1" ∷ "timeout" ∷ "0" ∷ []) ∷ [];
            options = "hash:ip" ∷ "timeout" ∷ "0" ∷ [];
          },
        )
        ∷ [])
unfolding parse_ipset_save split insert lookup
parse_one = refl

parse_unknown : parse_ipset_save "add foo 1.1.1.1\n" ≡ none
unfolding parse_ipset_save split lookup
parse_unknown = refl

abbrev saved : List Saved
saved =
    record {
      set = record {
        name = "foo";
        entries = ("1.1.1.1" ∷ "timeout" ∷ "0" ∷ []) ∷ [];
        options = "hash:ip" ∷ "timeout" ∷ "0" ∷ [];
      };
      printed = "hash:ip" ∷ "initval" ∷ "0x1" ∷ "timeout" ∷ "0" ∷ [];
    }
    ∷ record {
      set = record { name = "bar"; entries = []; options = "hash:net" ∷ [] };
      printed = "hash:net" ∷ [];
    }
    ∷ []

saved-WellFormed : WellFormed saved
unfolding lacks scrub_init_val_from_options
saved-WellFormed = ((refl, refl, refl, (refl, refl, refl, tt)))

parse_ipset_save-save_text_example : parse_ipset_save (save_text saved) ≡ some (table saved)
parse_ipset_save-save_text_example = parse_ipset_save-save_text saved saved-WellFormed
