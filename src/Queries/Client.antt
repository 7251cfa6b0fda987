-- ===== src/Queries/Client.antt =====
-- The query cache, a package that the client calls: its operations, and what its documentation says of them.
use when_i_off.Prelude.{
  str_eq, ◌≡◌, Bool, true, false, ◌&&◌, [], ◌∷◌, Option, none, some, if◌then◌else◌, ◌==◌,
}
use when_i_off.Queries.{KeyPart, text, id, null, filter_of, nearby, departures, Key}

-- The parts of which a filter's key is made, texts and ids, compared.
abbrev pub part_eq : KeyPart → KeyPart → Bool
part_eq (text s) (text t) = str_eq s t
part_eq (id m) (id n) = m == n
part_eq null null = true
part_eq _ _ = false

abbrev pub is_prefix : Key → Key → Bool
is_prefix [] key = true
is_prefix (p ∷ ps) [] = false
is_prefix (p ∷ ps) (q ∷ qs) = part_eq p q && is_prefix ps qs

abbrev pub same_key : Key → Key → Bool
same_key [] [] = true
same_key (p ∷ ps) (q ∷ qs) = part_eq p q && same_key ps qs
same_key _ _ = false

-- `{ queryKey }`, `{ queryKey, exact: true }` and `{ predicate }`
pub data QueryFilter : Type 0 where
  below exactly : Key → QueryFilter
  such_that : (Key → Bool) → QueryFilter

abbrev pub selects : QueryFilter → Key → Bool
selects (below prefix) key = is_prefix prefix key
selects (exactly k) key = same_key k key
selects (such_that p) key = p key

-- A key of texts, ids and null only, and a filter that compares with no other key.
abbrev pub is_plain_part : KeyPart → Bool
is_plain_part (text s) = true
is_plain_part (id n) = true
is_plain_part null = true
is_plain_part (filter_of f) = false
is_plain_part (nearby at) = false
is_plain_part (departures q) = false

abbrev pub is_plain : Key → Bool
is_plain [] = true
is_plain (p ∷ ps) = is_plain_part p && is_plain ps

abbrev pub is_plain_filter : QueryFilter → Bool
is_plain_filter (below prefix) = is_plain prefix
is_plain_filter (exactly k) = is_plain k
is_plain_filter (such_that p) = true

-- What an updater makes of an answer: one that returns undefined changes nothing.
abbrev pub updated {ℓ} : {D : Type ℓ} → (Option D → Option D) → Option D → Option D
updated u old = elim (u old) [ none ↦ old | some d ↦ some d ]

-- A cache of answers of type `D`. A query is fresh if it has an answer that was not invalidated.
pub record QueryClient (D : Type 0) : Type 1 where
  pub Cache : Type 0
  pub answer : Cache → Key → Option D
  pub is_fresh : Cache → Key → Bool
  pub invalidate : QueryFilter → Cache → Cache
  pub set_data : Key → (Option D → Option D) → Cache → Cache
  pub clear : Cache → Cache

-- What the documentation says: an invalidation keeps the answers and marks the selected queries; the updater of
-- `setQueryData` gets the answer of the key's own query, and one that returns undefined changes nothing; and a
-- cleared cache has no answer. Of keys that hold objects, which are compared deeply, nothing is said.
pub record IsQueryClient {D : Type 0} (client : QueryClient D) : Type 0 where
  pub answer-invalidate :
      (f : QueryFilter) (c : client.Cache) (k : Key)
      → client.answer (client.invalidate f c) k ≡ client.answer c k
  pub fresh-invalidate :
      (f : QueryFilter) (c : client.Cache) (k : Key)
      → is_plain_filter f ≡ true
      → client.is_fresh (client.invalidate f c) k
        ≡ (if selects f k then false else client.is_fresh c k)
  pub answer-set_data :
      (j : Key) (u : Option D → Option D) (c : client.Cache) (k : Key)
      → is_plain j ≡ true
      → client.answer (client.set_data j u c) k
        ≡ (if same_key j k then updated u (client.answer c k) else client.answer c k)
  pub fresh-set_data :
      (j : Key) (u : Option D → Option D) (c : client.Cache) (k : Key)
      → is_plain j ≡ true
      → same_key j k ≡ false
      → client.is_fresh (client.set_data j u c) k ≡ client.is_fresh c k
  pub answer-clear : (c : client.Cache) (k : Key) → client.answer (client.clear c) k ≡ none
