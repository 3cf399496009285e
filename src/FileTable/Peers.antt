-- ===== src/FileTable/Peers.antt =====
-- Which peers have a chunk, after an acquisition and after the loss of a peer.
use native.Mathlib.Nat.{mod-lt}
use seven_deadly_syns.Prelude.{
  ℕ, zero, suc, ◌%◌, ◌<◌, ◌≡◌, ◌≢◌, refl, sym, ap, ◌∙◌, Bool, true, false, ◌==◌, leb, ◌&&◌, not,
  if◌then◌else◌, Option, none, some, List, [], ◌∷◌, ◌++◌, map, length, length-set, get_elem?,
  get_or, get_or-set_self, get_or-set_ne, set, arith, Bool-cases, Option-cases, inl, inr,
}
use seven_deadly_syns.Queue.Spec
use seven_deadly_syns.FileSystem.Types.{Name, name_eq, name_eq_iff}
use seven_deadly_syns.HashTable.{bucket_search, bucket, get_element}
use seven_deadly_syns.HashTable.Lookup.{IsValid}
use seven_deadly_syns.FileTable.{
  FileTableEntry, FileTable, hash, equals, search, entry_at, change, change_at, get_peers,
  set_that_peer_has_file_chunk, without_peer, remove_peer,
}

abbrev pub map_option : {A B : Type 0} → (A → B) → Option A → Option B
map_option f none = none
map_option f (some a) = some (f a)

abbrev pub looks_for : Name → FileTableEntry → Bool
looks_for path = bucket_search hash equals (search path)

abbrev pub KeepsPath : (FileTableEntry → FileTableEntry) → Type 0
KeepsPath f = (e : FileTableEntry) → (f e).path ≡ e.path

pub looks_for-path : (path : Name) (e : FileTableEntry) → looks_for path e ≡ name_eq e.path path
unfolding bucket_search equals hash
looks_for-path path e = elim (Bool-cases (name_eq e.path path)) [
  | inl hit ↦ ground (arith, ap (λ p. hash (search p)) ((name_eq_iff e.path path).0 hit))
  | inr miss ↦ ground arith
]

find-change_self :
    (path : Name) (f : FileTableEntry → FileTableEntry) (es : List FileTableEntry)
    → KeepsPath f
    → Spec.find (looks_for path) (change (looks_for path) f es)
      ≡ map_option f (Spec.find (looks_for path) es)
unfolding Spec.find change
find-change_self path f [] k = refl
find-change_self path f (e ∷ es) k = ground (
  arith,
  looks_for-path path e,
  looks_for-path path (f e),
  ap (λ p. name_eq p path) (k e),
  find-change_self path f es k,
)

find-change_other :
    (path other : Name) (f : FileTableEntry → FileTableEntry) (es : List FileTableEntry)
    → KeepsPath f
    → other ≢ path
    → Spec.find (looks_for other) (change (looks_for path) f es) ≡ Spec.find (looks_for other) es
unfolding Spec.find change
find-change_other path other f [] k ne = refl
find-change_other path other f (e ∷ es) k ne = ground (
  arith,
  looks_for-path path e,
  looks_for-path other e,
  looks_for-path other (f e),
  ap (λ p. name_eq p other) (k e),
  name_eq_iff e.path path,
  name_eq_iff e.path other,
  find-change_other path other f es k ne,
)

module _ (ft : FileTable) (sized : length ft.table ≡ ft.tablesize) (positive : 0 < ft.tablesize)
    (path : Name) (f : FileTableEntry → FileTableEntry) (k : KeepsPath f) where
  pub entry_at-change_self : entry_at (change_at ft path f) path ≡ map_option f (entry_at ft path)
  unfolding entry_at change_at get_element bucket
  entry_at-change_self =
      let slot = hash (search path) % ft.tablesize in
      ap (Spec.find (looks_for path)) (
        get_or-set_self ft.table slot (change (looks_for path) f (get_or ft.table slot [])) []
          (omega (arith, mod-lt (hash (search path)) positive, sized)))
      ∙ find-change_self path f (get_or ft.table slot []) k

  pub entry_at-change_other :
      (other : Name) → other ≢ path → entry_at (change_at ft path f) other ≡ entry_at ft other
  unfolding entry_at change_at get_element bucket
  entry_at-change_other other ne =
      let slot = hash (search path) % ft.tablesize in
      let slot' = hash (search other) % ft.tablesize in
      let changed = change (looks_for path) f (get_or ft.table slot []) in
      elim (Bool-cases (slot' == slot)) [
        | inl same ↦
            let at : slot' ≡ slot = ground arith in
            ap (λ i. Spec.find (looks_for other) (get_or (set ft.table slot changed) i [])) at
            ∙ ap (Spec.find (looks_for other)) (
                get_or-set_self ft.table slot changed []
                  (omega (arith, mod-lt (hash (search path)) positive, sized)))
            ∙ find-change_other path other f (get_or ft.table slot []) k ne
            ∙ ap (λ i. Spec.find (looks_for other) (get_or ft.table i [])) (sym at)
        | inr apart ↦
            ap (Spec.find (looks_for other))
              (get_or-set_ne ft.table slot slot' changed [] (λ e. ground arith))
      ]

-- Does the list name the peer?
abbrev pub lists : ℕ → List ℕ → Bool
lists p [] = false
lists p (q ∷ qs) = if q == p then true else lists p qs

-- get_peers from the entry of the path.
abbrev pub peers_of : Option FileTableEntry → ℕ → Option (Option (List ℕ))
peers_of none chunk = some none
peers_of (some fte) chunk =
    if leb chunk (length fte.chunks)
    then elim (get_elem? fte.chunks chunk) [ none ↦ none | some peers ↦ some (some peers) ]
    else some none

pub get_peers-entry :
    (ft : FileTable) (path : Name) (chunk : ℕ)
    → get_peers ft path chunk ≡ peers_of (entry_at ft path) chunk
unfolding get_peers
get_peers-entry ft path chunk = elim (Option-cases (entry_at ft path)) [
  | inl e ↦ rw (e, get_peers) refl
  | inr (fte, e) ↦ rw (e, get_peers) refl
]

get_elem?-below :
    {A : Type 0} (xs : List A) (i : ℕ) (x : A) → get_elem? xs i ≡ some x → i < length xs
get_elem?-below [] i x h = cc
get_elem?-below (y ∷ xs) zero x h = omega arith
get_elem?-below (y ∷ xs) (suc i) x h = omega (arith, get_elem?-below xs i x h)

get_elem?-set_self :
    {A : Type 0} (xs : List A) (i : ℕ) (x : A) → i < length xs → get_elem? (set xs i x) i ≡ some x
get_elem?-set_self [] i x h = absurd (omega arith)
get_elem?-set_self (y ∷ xs) zero x h = refl
get_elem?-set_self (y ∷ xs) (suc i) x h = get_elem?-set_self xs i x (omega arith)

get_elem?-set_ne :
    {A : Type 0} (xs : List A) (i j : ℕ) (x : A) → i ≢ j → get_elem? (set xs i x) j ≡ get_elem? xs j
get_elem?-set_ne [] i j x ne = refl
get_elem?-set_ne (y ∷ xs) zero zero x ne = absurd (ne refl)
get_elem?-set_ne (y ∷ xs) zero (suc j) x ne = refl
get_elem?-set_ne (y ∷ xs) (suc i) zero x ne = refl
get_elem?-set_ne (y ∷ xs) (suc i) (suc j) x ne = get_elem?-set_ne xs i j x (λ e. ne (ap suc e))

pub peers_of-some :
    (e : FileTableEntry) (chunk : ℕ) (ps : List ℕ)
    → get_elem? e.chunks chunk ≡ some ps
    → peers_of (some e) chunk ≡ some (some ps)
peers_of-some e chunk ps h = ground (arith, h, get_elem?-below e.chunks chunk ps h)

lists-find : (p : ℕ) (ps : List ℕ) → Spec.find (λ q. q == p) ps ≡ none → lists p ps ≡ false
unfolding Spec.find
lists-find p [] h = refl
lists-find p (q ∷ ps) h = ground (arith, h, lists-find p ps)

lists_found : (p q : ℕ) (ps : List ℕ) → Spec.find (λ r. r == p) ps ≡ some q → lists p ps ≡ true
unfolding Spec.find
lists_found p q [] h = cc
lists_found p q (r ∷ ps) h = ground (arith, h, lists_found p q ps)

-- The peers of a chunk that one more peer has.
abbrev pub with_peer : ℕ → List ℕ → List ℕ
with_peer peer ps = if lists peer ps then ps else ps ++ (peer ∷ [])

set_peer-known :
    (ft : FileTable) (path : Name) (peer chunk q : ℕ) (ps : List ℕ)
    → get_peers ft path chunk ≡ some (some ps)
    → Spec.find (λ p. p == peer) ps ≡ some q
    → set_that_peer_has_file_chunk ft path peer chunk ≡ some ft
unfolding set_that_peer_has_file_chunk
set_peer-known ft path peer chunk q ps e f = ground (arith, e, f)

set_peer-new :
    (ft : FileTable) (path : Name) (peer chunk : ℕ) (ps : List ℕ)
    → get_peers ft path chunk ≡ some (some ps)
    → Spec.find (λ p. p == peer) ps ≡ none
    → set_that_peer_has_file_chunk ft path peer chunk
      ≡ some (change_at ft path (λ e. record e { chunks = set e.chunks chunk (ps ++ (peer ∷ [])) }))
unfolding set_that_peer_has_file_chunk Spec.push
set_peer-new ft path peer chunk ps e f = ground (arith, e, f)

-- filetable_set_that_peer_has_file_chunk for a chunk of a file of the table: no assert fails, the chunk
-- is then with the peer too, named once more only if it was not named; the other chunks of the file, and
-- the entries of the other files, are as they were.
pub set_peer_lem :
    (ft : FileTable) (path : Name) (peer chunk : ℕ) (e : FileTableEntry) (ps : List ℕ)
    → IsValid hash equals ft
    → entry_at ft path ≡ some e
    → get_elem? e.chunks chunk ≡ some ps
    → (r : FileTable) × (set_that_peer_has_file_chunk ft path peer chunk ≡ some r)
      × (get_peers r path chunk ≡ some (some (with_peer peer ps)))
      × ((other : ℕ) → other ≢ chunk → get_peers r path other ≡ get_peers ft path other)
      × ((other : Name) → other ≢ path → entry_at r other ≡ entry_at ft other)
set_peer_lem ft path peer chunk e ps v there has_chunk =
    let now : get_peers ft path chunk ≡ some (some ps) =
      get_peers-entry ft path chunk
      ∙ ap (λ o. peers_of o chunk) there
      ∙ peers_of-some e chunk ps has_chunk in
    elim (Option-cases (Spec.find (λ p. p == peer) ps)) [
      | inr (q, known) ↦ (
        ft,
        set_peer-known ft path peer chunk q ps now known,
        now
            ∙ ap (λ b. some (some (if b then ps else ps ++ (peer ∷ []))))
                (sym (lists_found peer q ps known)),
        λ other ne. refl,
        λ other ne. refl,
      )
      | inl unknown ↦
          let f : FileTableEntry → FileTableEntry =
            λ k. record k { chunks = set k.chunks chunk (ps ++ (peer ∷ [])) } in
          let r = change_at ft path f in
          let after : entry_at r path ≡ some (f e) =
            entry_at-change_self ft v.sized v.positive path f (λ k. refl)
            ∙ ap (map_option f) there in
          (
            r,
            set_peer-new ft path peer chunk ps now unknown,
            get_peers-entry r path chunk
                ∙ ap (λ o. peers_of o chunk) after
                ∙ peers_of-some (f e) chunk (ps ++ (peer ∷ [])) (
                    get_elem?-set_self e.chunks chunk (ps ++ (peer ∷ []))
                      (get_elem?-below e.chunks chunk ps has_chunk))
                ∙ ap (λ b. some (some (if b then ps else ps ++ (peer ∷ []))))
                    (sym (lists-find peer ps unknown)),
            λ other ne.
                get_peers-entry r path other
                ∙ ap (λ o. peers_of o other) after
                ∙ same_chunk e chunk other (ps ++ (peer ∷ [])) ne
                ∙ sym (get_peers-entry ft path other ∙ ap (λ o. peers_of o other) there),
            entry_at-change_other ft v.sized v.positive path f (λ k. refl),
          )
    ]
  where
    same_chunk :
        (e : FileTableEntry) (chunk other : ℕ) (qs : List ℕ)
        → other ≢ chunk
        → peers_of (some (record e { chunks = set e.chunks chunk qs })) other
          ≡ peers_of (some e) other
    same_chunk e chunk other qs ne = ground (
      arith,
      get_elem?-set_ne e.chunks chunk other qs (λ s. ne (sym s)),
      length-set e.chunks chunk qs,
    )

-- How many chunks the file of an entry has, if there is one.
abbrev pub chunk_count : Option FileTableEntry → Option ℕ
chunk_count none = none
chunk_count (some e) = some (length e.chunks)

-- Removal of a peer.
find-without :
    (path : Name) (id : ℕ) (es : List FileTableEntry)
    → Spec.find (looks_for path) (map (without_peer id) es)
      ≡ map_option (without_peer id) (Spec.find (looks_for path) es)
unfolding Spec.find without_peer
find-without path id [] = refl
find-without path id (e ∷ es) =
    ground (
      arith,
      looks_for-path path e,
      looks_for-path path (without_peer id e),
      find-without path id es,
    )

get_or-map :
    {A B : Type 0} (f : A → B) (xss : List (List A)) (i : ℕ)
    → get_or (map (map f) xss) i [] ≡ map f (get_or xss i [])
get_or-map f [] i = refl
get_or-map f (xs ∷ xss) zero = refl
get_or-map f (xs ∷ xss) (suc i) = get_or-map f xss i

get_elem?-map :
    {A B : Type 0} (f : A → B) (xs : List A) (i : ℕ)
    → get_elem? (map f xs) i ≡ map_option f (get_elem? xs i)
get_elem?-map f [] i = refl
get_elem?-map f (x ∷ xs) zero = refl
get_elem?-map f (x ∷ xs) (suc i) = get_elem?-map f xs i

pub entry_at-remove_peer :
    (ft : FileTable) (id : ℕ) (path : Name)
    → entry_at (remove_peer ft id) path ≡ map_option (without_peer id) (entry_at ft path)
unfolding entry_at remove_peer get_element bucket
entry_at-remove_peer ft id path =
    ap (Spec.find (looks_for path))
      (get_or-map (without_peer id) ft.table (hash (search path) % ft.tablesize))
    ∙ find-without path id (get_or ft.table (hash (search path) % ft.tablesize) [])

lists-filter :
    (p id : ℕ) (ps : List ℕ)
    → lists p (Spec.filter (λ q. not (q == id)) ps) ≡ (lists p ps && not (p == id))
unfolding Spec.filter
lists-filter p id [] = refl
lists-filter p id (q ∷ ps) = ground (arith, lists-filter p id ps)

length-without_peer :
    (id : ℕ) (o : Option FileTableEntry)
    → chunk_count (map_option (without_peer id) o) ≡ chunk_count o
unfolding without_peer
length-without_peer id none = refl
length-without_peer id (some e) = ap some (count e.chunks)
  where
    count : (xs : List (List ℕ)) → length (map (Spec.filter (λ p. not (p == id))) xs) ≡ length xs
    count [] = refl
    count (x ∷ xs) = omega (arith, count xs)

-- filetable_remove_peer: of a chunk of a file, exactly the peer with the id is no longer among the peers
-- that have it; no file and no chunk goes or comes.
pub remove_peer_lem :
    (ft : FileTable) (id : ℕ) (path : Name) (e : FileTableEntry) (chunk : ℕ) (ps : List ℕ)
    → entry_at ft path ≡ some e
    → get_elem? e.chunks chunk ≡ some ps
    → (qs : List ℕ) × (get_peers (remove_peer ft id) path chunk ≡ some (some qs))
      × ((p : ℕ) → lists p qs ≡ (lists p ps && not (p == id)))
      × ((other : Name)
          → chunk_count (entry_at (remove_peer ft id) other) ≡ chunk_count (entry_at ft other))
remove_peer_lem ft id path e chunk ps there has_chunk = (
  Spec.filter (λ q. not (q == id)) ps,
  get_peers-entry (remove_peer ft id) path chunk
      ∙ ap (λ o. peers_of o chunk)
          (entry_at-remove_peer ft id path ∙ ap (map_option (without_peer id)) there)
      ∙ peers_of-some (without_peer id e) chunk (Spec.filter (λ q. not (q == id)) ps) chunk_at,
  λ p. lists-filter p id ps,
  λ other.
      ap chunk_count (entry_at-remove_peer ft id other)
      ∙ length-without_peer id (entry_at ft other),
)
  where
    chunk_at :
        get_elem? (without_peer id e).chunks chunk ≡ some (Spec.filter (λ q. not (q == id)) ps)
    chunk_at =
        unfold without_peer in
        (get_elem?-map (Spec.filter (λ q. not (q == id))) e.chunks chunk
          ∙ ap (map_option (Spec.filter (λ q. not (q == id)))) has_chunk)
