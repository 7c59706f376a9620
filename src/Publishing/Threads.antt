-- ===== src/Publishing/Threads.antt =====
-- The map of services/github_publish.py from the groups with an inline comment on the pull request to
-- the comment: how it is stored in `summary_json`, read from earlier jobs, and keyed by groups.
use revy.Common.{
  ℕ, ◌≡◌, refl, sym, ◌∙◌, String, Bool, true, false, ◌&&◌, ◌||◌, Option, none, some, List, [], ◌∷◌,
  ◌++◌, arith, str_eq, if◌then◌else◌, ◌==◌, leb, text_length, uuid_str, All, All-map_both,
  Bool-cases, inl, inr,
}
use mathlib.Core.List.{append_assoc, append-nil}
use revy.Common.Dict.{Dict, lookup, put, set_default, merge, lookup-put}
use revy.Common.Json.{ℤ, Json, Members, end, member, get_key, as_int, as_text, as_dict, int_eq}
use revy.Common.Table
use revy.Findings.Rows.{Group, PublishJob}
use Prim.Native.Char.{Char, code}

-- The comment of an entry: an old one is the number itself.
abbrev pub entry_comment : Json → Option ℤ
entry_comment value = elim (as_int value) [
  | some comment_id ↦ some comment_id
  | none ↦ elim (as_dict value) [ none ↦ none | some entry ↦ as_int (get_key "comment_id" entry) ]
]

abbrev pub put_comment : String → Option ℤ → Dict ℤ → Dict ℤ
put_comment fingerprint none merged = merged
put_comment fingerprint (some comment_id) merged = put fingerprint comment_id merged

read_entries : Dict ℤ → Members → Dict ℤ
unfolding get_key
read_entries merged end = merged
read_entries merged (member fingerprint value rest) =
    read_entries (put_comment fingerprint (entry_comment value) merged) rest

unfoldable pub deserialize_inline_thread_map : Json → Dict ℤ
unfolding read_entries
deserialize_inline_thread_map (Json.object raw) = read_entries [] raw
deserialize_inline_thread_map _ = []

-- `isinstance(thread_id, str) and thread_id`
abbrev pub non_empty : Option String → Option String
non_empty none = none
non_empty (some s) = if str_eq s "" then none else some s

-- The thread of a prior entry, if it is about the same comment.
abbrev pub prior_thread_id : ℤ → Json → Option String
prior_thread_id comment_id prior_entry = elim (as_dict prior_entry) [
  | none ↦ none
  | some entry ↦ elim (as_int (get_key "comment_id" entry)) [
    | none ↦ none
    | some prior_comment_id ↦
        if int_eq prior_comment_id comment_id
        then non_empty (as_text (get_key "thread_id" entry))
        else none
  ]
]

abbrev thread_members : Option String → Members
thread_members none = end
thread_members (some thread_id) = member "thread_id" (Json.string thread_id) end

unfoldable pub thread_entry : Members → Dict String → String → ℤ → Json
unfolding get_key
thread_entry prior thread_ids fingerprint comment_id =
    let thread_id : Option String = elim (lookup fingerprint thread_ids) [
      | some known ↦ some known
      | none ↦ prior_thread_id comment_id (get_key fingerprint prior)
    ] in
    Json.object (member "comment_id" (Json.integer comment_id) (thread_members thread_id))

unfoldable pub serialize_inline_thread_map : Dict ℤ → Members → Dict String → Members
unfolding thread_entry
serialize_inline_thread_map [] prior thread_ids = end
serialize_inline_thread_map ((fingerprint, comment_id) ∷ comment_map) prior thread_ids =
    member fingerprint (thread_entry prior thread_ids fingerprint comment_id)
      (serialize_inline_thread_map comment_map prior thread_ids)

-- `(summary_json or {}).get(key)`
unfoldable pub summary_key : String → Option Members → Json
unfolding get_key
summary_key key none = Json.null
summary_key key (some summary) = get_key key summary

-- `_load_inline_thread_map`, for jobs in the order of their creation: a later job's entry wins.
load_from : Dict ℤ → List PublishJob → Dict ℤ
unfolding summary_key deserialize_inline_thread_map
load_from merged [] = merged
load_from merged (prior ∷ jobs) =
    load_from
      (merge merged
        (deserialize_inline_thread_map (summary_key "github_inline_threads" prior.summary_json)))
      jobs

unfoldable pub load_inline_thread_map : List PublishJob → Dict ℤ
unfolding load_from
load_inline_thread_map = load_from []

-- `_fingerprint_thread_ids_from_index`
unfoldable pub fingerprint_thread_ids_from_index : (ℤ → Option String) → Dict ℤ → Dict String
fingerprint_thread_ids_from_index thread_index [] = []
fingerprint_thread_ids_from_index thread_index ((fingerprint, comment_id) ∷ comment_map) =
    let rest = fingerprint_thread_ids_from_index thread_index comment_map in
    elim (non_empty (thread_index comment_id)) [
      | none ↦ rest
      | some thread_id ↦ (fingerprint, thread_id) ∷ rest
    ]

is_lower_hex : Char → Bool
is_lower_hex ch = let c = code ch in leb 48 c && leb c 57 || leb 97 c && leb c 102

all_lower_hex : String → Bool
unfolding is_lower_hex
all_lower_hex String.[] = true
all_lower_hex (String.◌∷◌ c s) = is_lower_hex c && all_lower_hex s

-- `_SHA256_HEX_RE.fullmatch(key)`
unfoldable pub is_sha256_hex : String → Bool
unfolding all_lower_hex
is_sha256_hex s = text_length s == 64 && all_lower_hex s

-- `_fingerprint_to_group_id_map`, asked for one fingerprint; the last row wins in the dictionary.
unfoldable pub fingerprint_to_group_id : List Group → ℕ → String → Option String
fingerprint_to_group_id [] pull_request_id fingerprint = none
fingerprint_to_group_id (g ∷ groups) pull_request_id fingerprint =
    elim (fingerprint_to_group_id groups pull_request_id fingerprint) [
      | some identity ↦ some identity
      | none ↦
          if g.pull_request_id == pull_request_id && str_eq g.fingerprint fingerprint
          then some (uuid_str g.id)
          else none
    ]

abbrev set_default_of : Option String → ℤ → Dict ℤ → Dict ℤ
set_default_of none comment_id rekeyed = rekeyed
set_default_of (some identity) comment_id rekeyed = set_default identity comment_id rekeyed

-- `parse_uuid` is the constructor of `uuid.UUID`, with nothing for a `ValueError`.
module _ (parse_uuid : String → Option ℕ) (groups : List Group) (pull_request_id : ℕ) where
  -- `_rekey_loaded_identity` and `rekey_identity_keys_to_group_ids`, key by key.
  unfoldable pub rekey_loaded_identity : String → String
  rekey_loaded_identity key = elim (parse_uuid key) [
    | some parsed ↦ uuid_str parsed
    | none ↦
        if is_sha256_hex key
        then elim (fingerprint_to_group_id groups pull_request_id key) [
          | some mapped ↦ mapped
          | none ↦ key
        ]
        else key
  ]

  -- The first loop: fingerprints of groups, none of which takes an entry that is there.
  rekey_fingerprints : Dict ℤ → Dict ℤ → Dict ℤ
  rekey_fingerprints rekeyed [] = rekeyed
  rekey_fingerprints rekeyed ((key, comment_id) ∷ comment_map) =
      let identity =
        if is_sha256_hex key then fingerprint_to_group_id groups pull_request_id key else none in
      rekey_fingerprints (set_default_of identity comment_id rekeyed) comment_map

  -- The second: the ids of groups, which overwrite, and keys of no known form.
  rekey_ids : Dict ℤ → Dict ℤ → Dict ℤ
  rekey_ids rekeyed [] = rekeyed
  rekey_ids rekeyed ((key, comment_id) ∷ comment_map) =
      rekey_ids
        (elim (parse_uuid key) [
          | some parsed ↦ put (uuid_str parsed) comment_id rekeyed
          | none ↦ if is_sha256_hex key then rekeyed else put key comment_id rekeyed
        ])
        comment_map

  unfoldable pub rekey_inline_thread_map_to_group_ids : Dict ℤ → Dict ℤ
  unfolding rekey_fingerprints rekey_ids is_sha256_hex fingerprint_to_group_id
  rekey_inline_thread_map_to_group_ids comment_map =
      rekey_ids (rekey_fingerprints [] comment_map) comment_map

-- No key stands twice, as in any dictionary.
abbrev pub IsKeyed : Dict ℤ → Type 0
IsKeyed = Table.IsPairwise (λ x y. str_eq x.0 y.0 ≡ false)

put-append : (k : String) (v : ℤ) (d : Dict ℤ) → lookup k d ≡ none → put k v d ≡ d ++ (k, v) ∷ []
put-append k v [] h = refl
put-append k v ((j, w) ∷ d) h = elim (Bool-cases (str_eq j k)) [
  | inl same ↦ ground arith
  | inr other ↦ ground (arith, put-append k v d)
]

read-serialize :
    (merged comment_map : Dict ℤ) (prior : Members) (thread_ids : Dict String)
    → IsKeyed comment_map
    → All (λ x. lookup x.0 merged ≡ none) comment_map
    → read_entries merged (serialize_inline_thread_map comment_map prior thread_ids)
      ≡ merged ++ comment_map
unfolding read_entries serialize_inline_thread_map
read-serialize merged [] prior thread_ids keyed fresh = sym (append-nil merged)
read-serialize merged ((k, v) ∷ comment_map) prior thread_ids keyed fresh =
    read-serialize (put k v merged) comment_map prior thread_ids keyed.1 (
      All-map_both (λ x. str_eq k x.0 ≡ false) (λ x. lookup x.0 merged ≡ none)
        (λ x. lookup x.0 (put k v merged) ≡ none) comment_map
        (λ x other absent. lookup-put x.0 k v merged ∙ rw other absent) keyed.0 fresh.1)
    ∙ rw (put-append k v merged fresh.0) (append_assoc merged ((k, v) ∷ []) comment_map)

-- A map that is stored is read back as it was, entry by entry and in order, whatever threads are
-- stored with it.
pub deserialize-serialize :
    (comment_map : Dict ℤ) (prior : Members) (thread_ids : Dict String)
    → IsKeyed comment_map
    → deserialize_inline_thread_map
        (Json.object (serialize_inline_thread_map comment_map prior thread_ids))
      ≡ comment_map
unfolding deserialize_inline_thread_map
deserialize-serialize comment_map prior thread_ids keyed =
    read-serialize [] comment_map prior thread_ids keyed (all_fresh comment_map)
  where
    all_fresh : (d : Dict ℤ) → All (λ x. lookup {V = ℤ} x.0 [] ≡ none) d
    all_fresh [] = tt
    all_fresh (x ∷ d) = (refl, all_fresh d)
