-- ===== src/Examples/Credentials.antt =====
-- internal/auth at concrete inputs.
use mosquitto_operator.Base.{
  ℕ, ◌≡◌, ◌≢◌, refl, inl, inr, true, none, [], ◌∷◌, Bytes, codes, bytes_discrete, All, ◌||◌,
}
use mosquitto_operator.Base.Decimal.{atoi}
use mosquitto_operator.Base.Base64.{encode, char_of, value_of, decode}
use mosquitto_operator.Base.Dict.{get_or, lookup, insert, member, keys}
use mosquitto_operator.Base.Results.{Result, ok, err}
use mosquitto_operator.Base.Sort.{sort}
use mosquitto_operator.Base.Strings.{
  Lacks-contains, trim_prefix, has_prefix, to_lower, split, contains, cut,
}
use mosquitto_operator.Base.Runes.{valid_string, runes, trim_space}
use mosquitto_operator.Auth.Defs.{
  Accepted, exporter_username, exporter_principal, matches_username_pattern, topic_problem,
  level_problem, has_control, acl_refusal, check,
}
use mosquitto_operator.Auth.Hash.{parse_hash, hash_password, keep_or_hash, verify_password}
use mosquitto_operator.Auth.Files.{hashes, render_files}
use mosquitto_operator.Auth.Render.{
  RenderResult, file_payload, check_all, resolve_collisions, canonical_acls, accept_winners,
  accept_reserved, render, older,
}
use mosquitto_operator.Auth.Admitted.{IsAdmissible, check-IsAdmissible}
use mosquitto_operator.Auth.Verified.{verify_password-hash_password}
use mosquitto_operator.Auth.Winners.{AreOldest, resolve_collisions-AreOldest}
use mosquitto_operator.Auth.ReadBack.{IsClean, get_or-hashes-render_files}
use mosquitto_operator.Auth.Distinct.{ArePrincipals}
use mosquitto_operator.Auth.Settles.{render_settles, winners_of}
use mosquitto_operator.Auth.Authenticated.{LetsIn, input_names, principal_names, render-LetsIn}
use mosquitto_operator.Examples.Samples.{sample_crypto, sensor, rival}

checked : check sensor ≡ none
unfolding check matches_username_pattern acl_refusal topic_problem level_problem has_control
    has_prefix to_lower split contains valid_string runes trim_space bytes_discrete
checked = refl

check-IsAdmissible_example : IsAdmissible sensor
check-IsAdmissible_example = check-IsAdmissible sensor checked

resolve_collisions-AreOldest_example :
    AreOldest (sensor ∷ rival ∷ []) (resolve_collisions (sensor ∷ rival ∷ []) []).0
resolve_collisions-AreOldest_example = resolve_collisions-AreOldest (sensor ∷ rival ∷ []) []

-- The older of the two wins.
rival_wins : (resolve_collisions (sensor ∷ rival ∷ []) []).0 ≡ rival ∷ []
unfolding resolve_collisions older sort lookup insert bytes_discrete
rival_wins = refl

abbrev text_of : Result (Bytes × ℕ) → Bytes
text_of (ok (h, r)) = h
text_of (err e) = []

abbrev sample_hash : Bytes
sample_hash = text_of (hash_password sample_crypto (codes "secret") 0)

hashed : hash_password sample_crypto (codes "secret") 0 ≡ ok (sample_hash, 1)
unfolding hash_password
hashed = refl

verify_password-hash_password_example :
    verify_password sample_crypto sample_hash (codes "secret") ≡ true
verify_password-hash_password_example =
    verify_password-hash_password sample_crypto (codes "secret") 0 sample_hash 1 hashed

abbrev alice : Accepted
alice = record { username = codes "alice"; hash = codes "$7$x"; acls = [] }

abbrev bob : Accepted
bob = record { username = codes "bob"; hash = codes "$7$y"; acls = [] }

IsClean-alice : IsClean alice
IsClean-alice = record {
  named = λ e. cc;
  no_colon = Lacks-contains b':' alice.username (unfold contains in refl);
  one_line = Lacks-contains 10 alice.username (unfold contains in refl);
  hash_one_line = Lacks-contains 10 alice.hash (unfold contains in refl);
}

IsClean-bob : IsClean bob
IsClean-bob = record {
  named = λ e. cc;
  no_colon = Lacks-contains b':' bob.username (unfold contains in refl);
  one_line = Lacks-contains 10 bob.username (unfold contains in refl);
  hash_one_line = Lacks-contains 10 bob.hash (unfold contains in refl);
}

names_differ : codes "bob" ≢ codes "alice"
names_differ e = cc

get_or-hashes-render_files_example :
    get_or (codes "bob") [] (hashes (render_files (alice ∷ bob ∷ []))) ≡ codes "$7$y"
get_or-hashes-render_files_example =
    get_or-hashes-render_files (alice ∷ bob ∷ []) bob (IsClean-alice, (IsClean-bob, tt))
      ((names_differ, tt), (tt, tt)) (inr (inl refl))

abbrev pub result_of : Result (RenderResult × ℕ) → RenderResult
result_of (ok (r, rest)) = r
result_of (err e) = record { content = []; verdicts = []; accepted = 0 }

abbrev pub sample_result : RenderResult
sample_result = result_of (
    render sample_crypto file_payload (sensor ∷ rival ∷ []) (exporter_principal (codes "pw") ∷ [])
      [] 0)

pub rendered :
    render sample_crypto file_payload
      (sensor ∷ rival ∷ [])
      (exporter_principal (codes "pw") ∷ [])
      []
      0
    ≡ ok (sample_result, 2)
unfolding render accept_winners accept_reserved keep_or_hash hash_password file_payload check_all
    check matches_username_pattern acl_refusal topic_problem level_problem has_control has_prefix
    to_lower split contains valid_string runes trim_space resolve_collisions older sort lookup
    insert get_or hashes canonical_acls exporter_principal bytes_discrete cut
rendered = refl

pub exporter_fits : ArePrincipals (exporter_principal (codes "pw") ∷ [])
unfolding exporter_principal
exporter_fits = (
  (
    Lacks-contains b':' exporter_username (unfold contains in refl),
    Lacks-contains 10 exporter_username (unfold contains in refl),
  ),
  (tt, tt),
)

render-LetsIn_example :
    All
      (λ i. LetsIn sample_crypto sample_result.content i.username i.password)
      (winners_of sample_crypto (sensor ∷ rival ∷ [])).0
    × All
        (λ p. LetsIn sample_crypto sample_result.content p.username p.password)
        (exporter_principal (codes "pw") ∷ [])
    × (member (codes "guest") (keys (hashes sample_result.content)) ≡ (
        member (codes "guest") (input_names (winners_of sample_crypto (sensor ∷ rival ∷ [])).0)
        || member (codes "guest") (principal_names (exporter_principal (codes "pw") ∷ []))))
render-LetsIn_example =
    render-LetsIn sample_crypto (sensor ∷ rival ∷ []) (exporter_principal (codes "pw") ∷ []) [] 0
      sample_result 2 (codes "guest") exporter_fits rendered

-- The second pass starts at another salt and leaves it where it is.
render_settles_example :
    render sample_crypto file_payload
      (sensor ∷ rival ∷ [])
      (exporter_principal (codes "pw") ∷ [])
      sample_result.content
      7
    ≡ ok (sample_result, 7)
render_settles_example =
    render_settles sample_crypto (sensor ∷ rival ∷ []) (exporter_principal (codes "pw") ∷ []) [] 0
      sample_result 2 sample_result.content 7 exporter_fits rendered refl

-- The hash in force is of another password.
rehashed :
    keep_or_hash sample_crypto sample_hash (codes "other!!") 0
    ≡ ok (text_of (hash_password sample_crypto (codes "other!!") 0), 1)
unfolding keep_or_hash hash_password verify_password parse_hash split has_prefix bytes_discrete atoi
    decode trim_prefix encode char_of value_of
rehashed = refl
