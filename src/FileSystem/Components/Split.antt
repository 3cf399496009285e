-- ===== src/FileSystem/Components/Split.antt =====
-- get_path_components: the components of a path that begins with a slash, and the loop on one that
-- does not.
use seven_deadly_syns.Prelude.{
  ℕ, zero, suc, ◌*◌, ◌≤◌, ◌<◌, ◌≡◌, ◌≢◌, refl, ap, ap₂, ◌∙◌, ◌==◌, Bool, true, false, if◌then◌else◌,
  none, some, List, [], ◌∷◌, ◌++◌, map, length, length-append, drop, drop-append, arith,
}
use seven_deadly_syns.FileSystem.Types.{Name}
use seven_deadly_syns.FileSystem.Components.{
  cut_slash, take_string, components_from, get_path_components,
}

-- Bytes of a name: no slash and no 0.
abbrev pub IsPlain : Name → Type 0
IsPlain [] = Unit {0}
IsPlain (c ∷ cs) = (c ≢ 0) × (c ≢ b'/') × IsPlain cs

-- Names that are not empty.
abbrev pub ArePlain : List Name → Type 0
ArePlain [] = Unit {0}
ArePlain (n ∷ ns) = IsPlain n × (0 < length n) × ArePlain ns

-- The path of some components: a slash before each.
unfoldable pub joined : List Name → Name
joined [] = []
joined (n ∷ ns) = b'/' ∷ (n ++ joined ns)

-- The bytes that get_path_components works on.
abbrev cut : List Name → List ℕ
cut ns = map cut_slash (joined ns)

map-plain-append :
    (n : Name) (rest : List ℕ) → IsPlain n → map cut_slash (n ++ rest) ≡ n ++ map cut_slash rest
unfolding cut_slash
map-plain-append [] rest h = refl
map-plain-append (c ∷ cs) rest (h, h', hs) = ground (arith, map-plain-append cs rest hs)

cut-cons : (n : Name) (ns : List Name) → IsPlain n → cut (n ∷ ns) ≡ 0 ∷ (n ++ cut ns)
unfolding joined
cut-cons n ns h = ap₂ ◌∷◌ (unfold cut_slash in refl) (map-plain-append n (joined ns) h)

take_string-plain : (n : Name) (ns : List Name) → IsPlain n → take_string (n ++ cut ns) ≡ n
unfolding take_string joined cut_slash
take_string-plain [] [] h = refl
take_string-plain [] (m ∷ ms) h = refl
take_string-plain (c ∷ cs) ns (h, h', hs) = ground (arith, take_string-plain cs ns hs)

components_from-zero :
    (fuel : ℕ) (b : Bool) (cs : List ℕ)
    → components_from (suc fuel) b (0 ∷ cs) ≡ components_from fuel true cs
unfolding components_from
components_from-zero fuel b cs = refl

components_from-name :
    (fuel c : ℕ) (cs more : List ℕ) (n : Name) (ns : List Name)
    → c ≢ 0
    → take_string (c ∷ cs) ≡ n
    → drop (length n) (c ∷ cs) ≡ more
    → components_from fuel true more ≡ some ns
    → components_from (suc fuel) true (c ∷ cs) ≡ some (n ∷ ns)
unfolding components_from
components_from-name fuel c cs more n ns h e f g = ground (arith, e, f, g)

components-joined :
    (fuel : ℕ) (b : Bool) (ns : List Name)
    → ArePlain ns
    → length ns * 2 < fuel
    → components_from fuel b (cut ns) ≡ some ns
components-joined zero b ns h enough = absurd (omega arith)
components-joined (suc fuel) b [] h enough = unfold components_from joined in refl
components-joined (suc zero) b (n ∷ ns) h enough = absurd (omega arith)
components-joined (suc (suc fuel)) b ([] ∷ ns) (plain, some_byte, hs) enough = absurd (omega arith)
components-joined (suc (suc fuel)) b ((c ∷ cs) ∷ ns) (plain, some_byte, hs) enough =
    ap (components_from (suc (suc fuel)) b) (cut-cons (c ∷ cs) ns plain)
    ∙ components_from-zero (suc fuel) b ((c ∷ cs) ++ cut ns)
    ∙ components_from-name fuel c (cs ++ cut ns) (cut ns) (c ∷ cs) ns plain.0
        (take_string-plain (c ∷ cs) ns plain) (drop-append (c ∷ cs) (cut ns) (length (c ∷ cs)) refl)
        (components-joined fuel true ns hs (omega arith))

length-joined : (ns : List Name) → ArePlain ns → length ns * 2 ≤ length (joined ns)
unfolding joined
length-joined [] h = omega arith
length-joined (n ∷ ns) (plain, some_byte, hs) =
    omega (arith, length-append n (joined ns), length-joined ns hs)

-- get_path_components on a path of components, each behind a slash, gives these, and ends within one
-- round more than the path has bytes. No component is empty or holds a slash or a 0.
pub get_path_components-joined :
    (fuel : ℕ) (ns : List Name)
    → ArePlain ns
    → length (joined ns) < fuel
    → get_path_components fuel (joined ns) ≡ some ns
unfolding get_path_components
get_path_components-joined fuel ns h enough =
    components-joined fuel false ns h (omega (arith, length-joined ns h))

stays : (fuel c : ℕ) (cs : List ℕ) → c ≢ 0 → components_from fuel false (c ∷ cs) ≡ none
unfolding components_from
stays zero c cs h = refl
stays (suc fuel) c cs h = ground (arith, stays fuel c cs h)

-- On a path that begins with any other byte the loop of get_path_components never ends.
pub get_path_components_diverges :
    (fuel c : ℕ) (cs : List ℕ) → c ≢ 0 → c ≢ b'/' → get_path_components fuel (c ∷ cs) ≡ none
unfolding get_path_components cut_slash
get_path_components_diverges fuel c cs h h' =
    let same : (if c == b'/' then 0 else c) ≡ c = ground arith in
    ap (λ b. components_from fuel false (b ∷ map cut_slash cs)) same
    ∙ stays fuel c (map cut_slash cs) h
