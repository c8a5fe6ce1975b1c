-- ===== src/Examples/Reads.antt =====
-- Listings and readbacks of `src/writers/verified.py` on concrete replies.
use pegaprox_plugin_opnsense.Prelude.{
  ℕ, ◌≤◌, String, true, none, some, List, [], ◌∷◌, ◌≡◌, refl, inl, lower,
}
use pegaprox_plugin_opnsense.Value
use pegaprox_plugin_opnsense.Value.{
  int, list, str, cons, nil, dict, field, end, Fields, has_key, truthy, text_of,
}
use pegaprox_plugin_opnsense.Exec.{ok, pure, raise, catch, ◌>>=◌}
use pegaprox_plugin_opnsense.Client
use pegaprox_plugin_opnsense.Client.{rooted, backoff, judge, transmit, attempt_loop, request}
use pegaprox_plugin_opnsense.Verified.Checks.{flat_get, same_field, matches_flat}
use pegaprox_plugin_opnsense.Verified.Reads
use pegaprox_plugin_opnsense.Verified.Reads.{
  rules, rows_of, count_rows, total_of, check_total, check_rows, checked_rows, is_lockout, search,
  listed, alias_runtime_fields, without_runtime,
}
use pegaprox_plugin_opnsense.Verified.Complete.{checked_rows_complete, Absence, verify_absent}
use pegaprox_plugin_opnsense.Verified.Matching.{matches_flat_each}
use pegaprox_plugin_opnsense.Examples.{good_env, client, the_uuid}

abbrev one_row : List Fields
one_row = field "uuid" (str "a") end ∷ []

abbrev listing : Fields
listing =
    field "rows" (list (cons (dict (field "uuid" (str "a") end)) nil)) (field "total" (int 1) end)

accepted : checked_rows (λ v. "") rules (dict listing) ≡ ok one_row
unfolding Value.get Value.get_or text_of checked_rows check_rows check_total total_of count_rows
    rows_of is_lockout
accepted = refl

totalled : Value.get "total" listing ≡ some (int 1)
unfolding Value.get
totalled = refl

checked_rows_complete_example :
    (n : ℕ) × (total_of (int 1) ≡ some n) × (n ≤ count_rows (λ v. "") rules one_row)
checked_rows_complete_example =
    checked_rows_complete (λ v. "") rules listing one_row (int 1) accepted totalled

gone : (Reads.verify good_env rules the_uuid none client []).0 ≡ ok true
unfolding Value.get Value.get_or truthy text_of ◌>>=◌ pure raise catch rooted backoff judge transmit
    attempt_loop request Client.get Client.post Reads.search Reads.verify checked_rows check_rows
    check_total total_of count_rows rows_of is_lockout lower
gone = refl

verify_absent_example : Absence good_env rules the_uuid client []
verify_absent_example = verify_absent good_env rules the_uuid client [] gone

matched : matches_flat (("a", "b") ∷ ("c", "d") ∷ []) (("a", "b") ∷ []) ≡ true
unfolding matches_flat flat_get same_field
matched = refl

matches_flat_each_example :
    (observed : String) × (flat_get "a" (("a", "b") ∷ ("c", "d") ∷ []) ≡ some observed)
    × (same_field "a" observed "b" ≡ true)
matches_flat_each_example =
    matches_flat_each (("a", "b") ∷ ("c", "d") ∷ []) (("a", "b") ∷ []) "a" "b" matched
      (inl (refl, refl))
