-- ===== src/Labels/Defs.antt =====
-- The functions of internal/common/labels.go.
use mosquitto_operator.Base.{
  ℕ, ◌+◌, Bool, true, false, Option, none, some, List, [], ◌∷◌, ◌++◌, ◌&&◌, ◌||◌, map, Bytes, codes,
  ◌==◌, ◌=?◌, ltb, leb, length, take, drop, if◌then◌else◌, not,
}
use mosquitto_operator.Base.Dict.{Dict, get_or, insert_all, keys, member}
use mosquitto_operator.Base.Runes.{Rune, runes}
use mosquitto_operator.Base.Sort.{sort_strings}
use mosquitto_operator.Base.Strings.{last_index, index, trim, split, join}
use mosquitto_operator.Api.{Mosquitto}

abbrev pub label_component : Bytes
label_component = codes "app.kubernetes.io/component"

abbrev pub label_instance : Bytes
label_instance = codes "app.kubernetes.io/instance"

abbrev pub label_managed_by : Bytes
label_managed_by = codes "app.kubernetes.io/managed-by"

abbrev pub label_name : Bytes
label_name = codes "app.kubernetes.io/name"

abbrev pub label_version : Bytes
label_version = codes "app.kubernetes.io/version"

abbrev pub app_name : Bytes
app_name = codes "mosquitto"

abbrev pub managed_by : Bytes
managed_by = codes "mosquitto-operator"

abbrev pub component_broker : Bytes
component_broker = codes "broker"

abbrev pub max_label_value_length : ℕ
max_label_value_length = 63

abbrev pub short_digest_length : ℕ
short_digest_length = 12

unfoldable pub is_alnum : ℕ → Bool
is_alnum c = leb b'a' c && leb c b'z' || leb b'A' c && leb c b'Z' || leb b'0' c && leb c b'9'

unfoldable pub is_punctuation : ℕ → Bool
is_punctuation c = c == b'-' || c == b'_' || c == b'.'

-- One round of the loop of `sanitizeLabelValue`: every byte that it writes is ASCII.
unfoldable pub label_byte : Rune → ℕ
unfolding is_alnum is_punctuation
label_byte r = if is_alnum r.code || is_punctuation r.code then r.code else b'-'

unfoldable pub truncated : Bytes → Bytes
truncated s = if ltb max_label_value_length (length s) then take max_label_value_length s else s

unfoldable pub or_unknown : Bytes → Bytes
or_unknown out = if out =? [] then codes "unknown" else out

unfoldable pub sanitize_label_value : Bytes → Bytes
sanitize_label_value value =
    or_unknown (trim is_punctuation (truncated (map label_byte (runes value))))

unfoldable pub after_algorithm : Bytes → Bytes
after_algorithm digest = elim (index digest b':') [
  | none ↦ digest
  | some algo_end ↦ drop (algo_end + 1) digest
]

unfoldable pub shortened : Bytes → Bytes
shortened digest =
    if ltb short_digest_length (length digest) then take short_digest_length digest else digest

unfoldable pub tag_part : Bytes → Bytes
tag_part image = elim (last_index image b'/') [
  | none ↦ image
  | some last_slash ↦ drop last_slash image
]

-- The version of `tagPart`, by the index of its last colon.
unfoldable pub version_of_tag : Bytes → Option ℕ → Bytes
version_of_tag tag (some idx) = sanitize_label_value (drop (idx + 1) tag)
version_of_tag tag none = codes "latest"

-- The version of an image reference, by the index of its last `@`.
unfoldable pub version_of_image : Bytes → Option ℕ → Bytes
version_of_image image (some idx) =
    sanitize_label_value (shortened (after_algorithm (drop (idx + 1) image)))
version_of_image image none = let tag = tag_part image in version_of_tag tag (last_index tag b':')

unfoldable pub extract_version_from_image : Bytes → Bytes
extract_version_from_image image = version_of_image image (last_index image b'@')

unfoldable pub base_labels : Mosquitto → Bytes → Dict Bytes
base_labels m image =
    (label_name, app_name)
    ∷ (label_instance, m.meta.name)
    ∷ (label_managed_by, managed_by)
    ∷ (label_component, component_broker)
    ∷ (label_version, extract_version_from_image image)
    ∷ []

unfoldable pub selector_labels : Mosquitto → Dict Bytes
selector_labels m =
    (label_name, app_name) ∷ (label_instance, m.meta.name) ∷ (label_managed_by, managed_by) ∷ []

unfoldable pub stateful_set_name : Mosquitto → Bytes
stateful_set_name m = m.meta.name

unfoldable pub headless_service_name : Mosquitto → Bytes
headless_service_name m = m.meta.name ++ codes "-headless"

unfoldable pub auth_secret_name : Mosquitto → Bytes
auth_secret_name m = m.meta.name ++ codes "-auth"

unfoldable pub client_service_name : Mosquitto → Bytes
client_service_name m = m.meta.name

unfoldable pub map_entries_missing : Dict Bytes → Dict Bytes → Bool
map_entries_missing [] current = false
map_entries_missing ((k, v) ∷ desired) current =
    if not (get_or k [] current =? v) then true else map_entries_missing desired current

unfoldable pub merge_labels : Dict Bytes → Dict Bytes → Dict Bytes
unfolding insert_all
merge_labels base overlay = insert_all overlay (insert_all base [])

unfoldable pub join_keys : Dict Bytes → Bytes
unfolding keys sort_strings join
join_keys m = join (sort_strings (keys m)) b','

-- The loop over the keys of `previous` that `kept` does not hold.
unfoldable pub not_kept : List Bytes → List Bytes → List Bytes
not_kept kept [] = []
not_kept kept (k ∷ ks) = let rest = not_kept kept ks in if member k kept then rest else k ∷ rest

unfoldable pub removed_keys : Bytes → Bytes → List Bytes
unfolding not_kept split
removed_keys previous current =
    if previous =? [] then [] else not_kept (split current b',') (split previous b',')
