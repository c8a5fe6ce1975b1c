-- ===== src/Examples/Roles.antt =====
-- The primary address of a node in `src/collectors/carp.py` on two addresses.
use pegaprox_plugin_opnsense.Prelude.{
  String, some, List, [], ◌∷◌, ◌≡◌, refl, inl, parse_int, strip, digits_onto, all_chars,
}
use pegaprox_plugin_opnsense.Exec.{ok}
use pegaprox_plugin_opnsense.Carp.{Vhid, rank_of, key_of, least, first_active, primary_vhid}
use pegaprox_plugin_opnsense.Carp.Primary.{NoGreater, primary_vhid-NoGreater}

abbrev address : String → String → Vhid
address vhid advskew = record {
  vhid = vhid;
  interface = "wan";
  ipaddr = "192.0.2.1";
  status = "MASTER";
  advbase = "1";
  advskew = advskew;
}

abbrev two : List Vhid
two = address "2" "" ∷ address "1" "" ∷ []

primary_of_two : primary_vhid two ≡ ok (some (address "1" ""))
unfolding rank_of key_of least first_active primary_vhid parse_int strip digits_onto all_chars
primary_of_two = refl

primary_vhid-NoGreater_example : NoGreater (address "1" "") (address "2" "")
primary_vhid-NoGreater_example =
    primary_vhid-NoGreater two (address "1" "") (address "2" "") primary_of_two (inl refl)
