-- ===== src/Server/Cache.antt =====
-- The cache of server.c: filling it from the database and looking a request up. Its keys are pointers:
-- those from the database to texts of their own, and those that a lookup adds to the array `word` of
-- `serverSendClientReply`, which holds whatever the request at hand is.
mod Tests
use dictionary.Base.Text.{codes}
use dictionary.AoStr.{AoStr, Libc, u32, dup_raw}
use dictionary.Database.{Row, for_each_row}
use dictionary.Hmap.{Hmap, HmapType, Memory, Status, get, add}
use dictionary.Hmap.Hash.{hash_string, str_cmp}
use dictionary.HtmlGrep.{c_string, get_matches, concat_list}
use dictionary.LinkedList.{list_release}
use dictionary.Base.{
  ℕ, ◌+◌, ◌%◌, Bool, true, false, Option, none, some, List, [], ◌∷◌, ◌++◌, Run, ok, fault, ◌>>=◌,
  length, take, ltb, ◌==◌, if◌then◌else◌,
}

pub data Key : Type 0 where
  word_array : Key
  own_text : List ℕ → Key

-- The text at a key, where `word` is what the array holds
abbrev pub key_text : List ℕ → Key → List ℕ
key_text word word_array = word
key_text word (own_text s) = s

abbrev pub key_type : List ℕ → HmapType Key
key_type word = record {
  keycmp = λ a h b k. str_cmp (key_text word a) h (key_text word b) k;
  hash_fn = λ a. hash_string (key_text word a);
}

abbrev pub Cache : Type 0
Cache = Hmap Key AoStr

module _ (libc : Libc) (mem : Memory) where
  -- `serverTransferToCache`, with a row of the table: nothing where it ends the program. A column is
  -- NULL or a text; lengths are of type `unsigned int`.
  unfoldable pub transfer_to_cache : List ℕ → Cache → List (Option (List ℕ)) → Run (Option Cache)
  transfer_to_cache word cache (some key ∷ some definition ∷ []) =
      let valuelen = length definition % u32 in
      dup_raw libc (take valuelen definition) ((valuelen + 10) % u32) >>= λ value.
      add (key_type word) mem cache (own_text (take (length key % u32) key)) value
      >>= λ (_, cache'). ok (some cache')
  transfer_to_cache word cache (none ∷ c ∷ []) = fault
  transfer_to_cache word cache (some key ∷ none ∷ []) = fault
  transfer_to_cache word cache [] = ok none
  transfer_to_cache word cache (c ∷ []) = ok none
  transfer_to_cache word cache (c ∷ d ∷ e ∷ row) = ok none

  -- `serverInitDictionary`: what `dbExec` says of the table that is made, what `dbGetRowCount` gives,
  -- and the rows; nothing where it ends the program.
  unfoldable pub init_dictionary :
      Bool → (rowcount : ℕ) → Bool → Option (List Row) → Cache → Run (Option Cache)
  init_dictionary made rowcount memory rows cache =
      if made
      then (if rowcount == 0
          then ok (some cache)
          else for_each_row (transfer_to_cache []) memory cache rows)
      else ok none

  -- `sqlstmt` of `serverPesistToDb`, and the write of the NUL behind all that `snprintf` would have
  -- written: the array has 65535 bytes.
  abbrev pub insert_statement : List ℕ → List ℕ → List ℕ
  insert_statement word definition =
      codes "INSERT INTO dict (word, definitions) VALUES ('"
      ++ word
      ++ codes "', '"
      ++ definition
      ++ codes "');"

  unfoldable pub persist_to_db : List ℕ → Option AoStr → Run (List ℕ)
  persist_to_db word none = fault
  persist_to_db word (some definition) = c_string definition.block >>= λ s.
      let stmt = insert_statement word s in if ltb (length stmt) 65535 then ok stmt else fault

  -- What a page answers: nothing where there is no response, or the status and the contents that
  -- libxml2 finds in the body, nothing where it cannot be parsed.
  abbrev pub Response : Type 0
  Response = Option (ℕ × Option (List (List ℕ)))

  module _ (consult : List ℕ → Run Response) (sortstring : AoStr → AoStr → Bool) (fuel : ℕ)
      (memory : Bool) where
    -- `serverLookupClientRequest` for the word that the array holds: the definition or NULL, and the
    -- cache. A page without a match gives NULL, which `serverPesistToDb` follows once it is in the
    -- cache; a fault stands for a release that does not end too.
    unfoldable pub lookup_client_request : List ℕ → Cache → Run (Option AoStr × Cache)
    lookup_client_request word cache = get (key_type word) cache word_array >>= λ found.
        elim found [
          | some definition ↦ ok (some definition, cache)
          | none ↦ consult word >>= λ response. elim response [
            | none ↦ ok (none, cache)
            | some (status, contents) ↦ elim (status == 200) [
              | false ↦ ok (none, cache)
              | true ↦ get_matches libc sortstring fuel memory contents >>= λ (h, l).
                  concat_list libc h l >>= λ (h', all_matches). elim all_matches [
                    | none ↦ fault
                    | some definition ↦
                        add (key_type word) mem cache word_array definition >>= λ (_, cache').
                        persist_to_db word (some definition) >>= λ _.
                        list_release h' l >>= λ released. elim released [
                          | none ↦ fault
                          | some _ ↦ ok (some definition, cache')
                        ]
                  ]
            ]
          ]
        ]
