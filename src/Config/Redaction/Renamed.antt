-- ===== src/Config/Redaction/Renamed.antt =====
-- Which MCP servers of the current configuration lend their secrets to renamed ones.
use mathlib.Core.Option.{some_inj}
use ai_memmail.Prelude.{
  All-append, ◌&&◌, ◌||◌, ==-refl, ◌≢◌, Bool, true, false, some, List, [], ◌∷◌, ◌≡◌, refl, sym, ap,
  subst, ◌∙◌, ◌≤◌, inl, inr, arith, if◌then◌else◌, Bool-cases, and-eq-true_iff, ◌==◌, ℕ_eq, All,
}
use ai_memmail.Prelude.Assoc.{Assoc, lookup, insert, contains_key, lookup-insert}
use ai_memmail.Text.{Text, Text_eq}
use ai_memmail.Config.{AppConfig, McpServerConfig}
use ai_memmail.Config.Redaction.{
  mcp_server_matches_for_secret_preservation, candidates_of, candidates, without, count_current,
  is_only, only_matches, renamed_mcp_server_matches,
}

abbrev Pair : Type 0
Pair = Text × Text

-- What holds of whatever a map finds.
abbrev Finds : (Text → Text → Type 0) → Assoc Text Text → Type 0
Finds Q m = (next current : Text) → lookup next m ≡ some current → Q next current

module _ (Q : Text → Text → Type 0) where
  Finds-insert :
      (next current : Text) (m : Assoc Text Text)
      → Q next current
      → Finds Q m
      → Finds Q (insert next current m)
  Finds-insert next current m q h n c e = elim (Bool-cases (next == n)) [
    | inl same ↦
        let hit =
          sym (ap (λ b. if b then some current else lookup n m) same)
          ∙ (sym (lookup-insert next n current m) ∙ e) in
        subst (λ x. Q x c) ((Text_eq.beq_iff next n).0 same)
          (subst (λ x. Q next x) (some_inj.0 hit) q)
    | inr other ↦ h n c (
        sym (ap (λ b. if b then some current else lookup n m) other)
        ∙ (sym (lookup-insert next n current m) ∙ e))
  ]

  Finds-if :
      (test : Bool) (next current : Text) (m : Assoc Text Text)
      → (test ≡ true → Q next current)
      → Finds Q m
      → Finds Q (if test then insert next current m else m)
  Finds-if true next current m q h = Finds-insert next current m (q refl) h
  Finds-if false next current m q h = h

  only_matches-Finds :
      (pairs rest : List Pair) (m : Assoc Text Text)
      → All (λ (pair : Pair). is_only pairs pair.0 pair.1 ≡ true → Q pair.0 pair.1) rest
      → Finds Q m
      → Finds Q (only_matches pairs rest m)
  unfolding only_matches
  only_matches-Finds pairs [] m h found = found
  only_matches-Finds pairs ((next, current) ∷ rest) m (h, hs) found =
      only_matches-Finds pairs rest _ hs
        (Finds-if (is_only pairs next current) next current m h found)

All-if :
    (P : Pair → Type 0) (x : Pair) (xs : List Pair) (test : Bool)
    → P x
    → All P xs
    → All P (if test then x ∷ xs else xs)
All-if P x xs true p ps = (p, ps)
All-if P x xs false p ps = ps

-- Whether a pair occurs.
occurs : Text → Text → List Pair → Bool
occurs n c [] = false
occurs n c ((next, current) ∷ pairs) = (next == n && current == c) || occurs n c pairs

occurs_behind :
    (n c : Text) (pairs xs : List Pair)
    → All (λ (pair : Pair). occurs pair.0 pair.1 pairs ≡ true) xs
    → All (λ (pair : Pair). occurs pair.0 pair.1 ((n, c) ∷ pairs) ≡ true) xs
unfolding occurs
occurs_behind n c pairs [] h = tt
occurs_behind n c pairs (x ∷ xs) (h, hs) = (ground arith, occurs_behind n c pairs xs hs)

occurs_self : (pairs : List Pair) → All (λ (pair : Pair). occurs pair.0 pair.1 pairs ≡ true) pairs
unfolding occurs
occurs_self [] = tt
occurs_self ((n, c) ∷ pairs) =
    (ground (arith, ==-refl n, ==-refl c), occurs_behind n c pairs pairs (occurs_self pairs))

count_current_one :
    (n c : Text) (pairs : List Pair) → occurs n c pairs ≡ true → 1 ≤ count_current c pairs
unfolding occurs
count_current_one n c [] h = ground arith
count_current_one n c ((next, current) ∷ pairs) h = ground (arith, count_current_one n c pairs)

count_current_two :
    (n m c : Text) (pairs : List Pair)
    → n ≢ m
    → occurs n c pairs ≡ true
    → occurs m c pairs ≡ true
    → 2 ≤ count_current c pairs
unfolding occurs
count_current_two n m c [] d h k = ground arith
count_current_two n m c ((next, current) ∷ pairs) d h k = ground (
  arith,
  count_current_two n m c pairs,
  count_current_one n c pairs,
  count_current_one m c pairs,
  Text_eq.beq_iff next n,
  Text_eq.beq_iff next m,
)

only_one :
    (n m c : Text) (pairs : List Pair)
    → count_current c pairs ≡ 1
    → occurs n c pairs ≡ true
    → occurs m c pairs ≡ true
    → n ≡ m
only_one n m c pairs one h k = elim (Bool-cases (n == m)) [
  | inl same ↦ (Text_eq.beq_iff n m).0 same
  | inr other ↦
      let two =
        count_current_two n m c pairs (λ e. ground (arith, (Text_eq.beq_iff n m).1 e)) h k in
      absurd (omega (arith, one, two))
]

abbrev Servers : Type 0
Servers = Assoc Text McpServerConfig

-- The names that are left are not in the other map.
abbrev IsOutside : Servers → Text × McpServerConfig → Type 0
IsOutside others (name, server) = contains_key others name ≡ false

kept-IsOutside :
    (others : Servers) (name : Text) (server : McpServerConfig) (rest : Servers) (b : Bool)
    → contains_key others name ≡ b
    → All (IsOutside others) rest
    → All (IsOutside others) (if b then rest else (name, server) ∷ rest)
kept-IsOutside others name server rest true e h = h
kept-IsOutside others name server rest false e h = (e, h)

without-IsOutside : (others m : Servers) → All (IsOutside others) (without others m)
without-IsOutside others [] = tt
without-IsOutside others ((name, server) ∷ m) =
    kept-IsOutside others name server (without others m) (contains_key others name) refl
      (without-IsOutside others m)

module _ (next current : Servers) where
  -- A pair of an added server and a removed one.
  abbrev IsRenaming : Pair → Type 0
  IsRenaming pair = (contains_key current pair.0 ≡ false) × (contains_key next pair.1 ≡ false)

  candidates_of-IsRenaming :
      (name : Text) (server : McpServerConfig) (removed : Servers)
      → contains_key current name ≡ false
      → All (IsOutside next) removed
      → All IsRenaming (candidates_of name server removed)
  candidates_of-IsRenaming name server [] new h = tt
  candidates_of-IsRenaming name server ((old, s) ∷ removed) new (h, hs) =
      All-if IsRenaming (name, old) (candidates_of name server removed)
        (mcp_server_matches_for_secret_preservation server s) (new, h)
        (candidates_of-IsRenaming name server removed new hs)

  candidates-IsRenaming :
      (added removed : Servers)
      → All (IsOutside current) added
      → All (IsOutside next) removed
      → All IsRenaming (candidates added removed)
  candidates-IsRenaming [] removed h k = tt
  candidates-IsRenaming ((name, server) ∷ added) removed (h, hs) k =
      All-append IsRenaming (candidates_of name server removed) (candidates added removed)
        (candidates_of-IsRenaming name server removed h k)
        (candidates-IsRenaming added removed hs k)

abbrev pairs_of : AppConfig → AppConfig → List Pair
pairs_of next current =
    candidates (without current.mcp_servers next.mcp_servers)
      (without next.mcp_servers current.mcp_servers)

abbrev IsOnly : AppConfig → AppConfig → Text → Text → Type 0
IsOnly next current n c =
    (count_current c (pairs_of next current) ≡ 1)
    × (occurs n c (pairs_of next current) ≡ true)
    × IsRenaming next.mcp_servers current.mcp_servers (n, c)

listed_pairs :
    (next current : AppConfig) (xs : List Pair)
    → All (λ (pair : Pair). occurs pair.0 pair.1 (pairs_of next current) ≡ true) xs
    → All (IsRenaming next.mcp_servers current.mcp_servers) xs
    → All
        (λ (pair : Pair).
          is_only (pairs_of next current) pair.0 pair.1 ≡ true → IsOnly next current pair.0 pair.1)
        xs
listed_pairs next current [] h k = tt
listed_pairs next current ((n, c) ∷ xs) (h, hs) (k, ks) =
    let pairs = pairs_of next current in
    (
      λ e. ((ℕ_eq.beq_iff (count_current c pairs) 1).0 ((and-eq-true_iff _ _).0 e).1, h, k),
      listed_pairs next current xs hs ks,
    )

renamed_pairs :
    (next current : AppConfig)
    → Finds (IsOnly next current) (renamed_mcp_server_matches next current)
unfolding renamed_mcp_server_matches lookup
renamed_pairs next current =
    let pairs = pairs_of next current in
    only_matches-Finds (IsOnly next current) pairs pairs []
      (listed_pairs next current pairs (occurs_self pairs) (
        candidates-IsRenaming next.mcp_servers current.mcp_servers _ _
          (without-IsOutside current.mcp_servers next.mcp_servers)
          (without-IsOutside next.mcp_servers current.mcp_servers)))
      (λ n c e. ground arith)

-- A server that takes over the secrets of one with another name is new, the other one is gone, and
-- no other server takes over the same secrets.
pub renamed_mcp_server_matches_sound :
    (next current : AppConfig) (name old : Text)
    → lookup name (renamed_mcp_server_matches next current) ≡ some old
    → (contains_key current.mcp_servers name ≡ false)
      × (contains_key next.mcp_servers old ≡ false)
      × ((other : Text)
          → lookup other (renamed_mcp_server_matches next current) ≡ some old
          → other ≡ name)
renamed_mcp_server_matches_sound next current name old e =
    let (one, mine, (new, gone)) = renamed_pairs next current name old e in
    (
      new,
      gone,
      λ other f.
          let (_, theirs, _) = renamed_pairs next current other old f in
          only_one other name old (pairs_of next current) one theirs mine,
    )
