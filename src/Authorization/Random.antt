-- ===== src/Authorization/Random.antt =====
-- server.c: the authorization code holds all bits of the three random words.
use h_ss.Prelude.{
  take, drop, ℕ, zero, suc, ◌+◌, ◌/◌, ◌^◌, ◌<◌, ◌≡◌, refl, sym, ap, ◌∙◌, arith, Bool, true, false,
  List, [], ◌∷◌, none, some, if◌then◌else◌, ◌==◌, ◌&&◌, Bytes, nth, length, All, All-append,
}
use h_ss.Authorization.{
  Authorization, character_map, sextets, shifted, last_two, indices, characters,
  get_authorization_code,
}

-- The index of the first character that equals the given one.
unfoldable position : Bytes → ℕ → ℕ
position [] c = 0
position (x ∷ xs) c = let rest = position xs c in if x == c then 0 else suc rest

unfoldable has_positions : Bytes → Bytes → ℕ → Bool
has_positions whole [] i = true
has_positions whole (c ∷ cs) i = position whole c == i && has_positions whole cs (suc i)

nth-position :
    (whole cs : Bytes) (i k : ℕ)
    → has_positions whole cs i ≡ true
    → k < length cs
    → (c : ℕ) × (nth cs k ≡ some c) × (position whole c ≡ i + k)
unfolding has_positions
nth-position whole [] i k h l = ground arith
nth-position whole (c ∷ cs) i zero h l = (c, refl, ground arith)
nth-position whole (c ∷ cs) i (suc k) h l =
    let next = nth-position whole cs (suc i) k (ground arith) (omega arith) in
    (next.0, next.1, omega (arith, next.2))

nth-map :
    (i : ℕ) → i < 64 → (c : ℕ) × (nth character_map i ≡ some c) × (position character_map c ≡ i)
unfolding has_positions position
nth-map i h =
    let found = nth-position character_map character_map 0 i refl h in
    (found.0, found.1, omega (arith, found.2))

abbrev Below64 : ℕ → Type 0
Below64 i = i < 64

shifted-bound : (w : ℕ) → w < 2 ^ 64 → shifted 10 w < 16
unfolding shifted
shifted-bound w h = omega arith

sextets-bound : (rounds w : ℕ) → All Below64 (sextets rounds w)
unfolding sextets
sextets-bound zero w = tt
sextets-bound (suc rounds) w = (omega arith, sextets-bound rounds (w / 64))

length-sextets : (rounds w : ℕ) → length (sextets rounds w) ≡ rounds
unfolding sextets
length-sextets zero w = refl
length-sextets (suc rounds) w = ap suc (length-sextets rounds (w / 64))

-- Sextets and rest determine the word.
sextets-injective :
    (rounds v w : ℕ)
    → sextets rounds v ≡ sextets rounds w
    → shifted rounds v ≡ shifted rounds w
    → v ≡ w
unfolding sextets shifted
sextets-injective zero v w h k = k
sextets-injective (suc rounds) v w h k = ground (arith, sextets-injective rounds (v / 64) (w / 64))

characters-some :
    (is : List ℕ)
    → All Below64 is
    → (cs : Bytes) × (characters is ≡ some cs) × (length cs ≡ length is)
unfolding characters
characters-some [] h = ([], refl, refl)
characters-some (i ∷ is) h =
    let c = nth-map i h.0 in
    let rest = characters-some is h.1 in (c.0 ∷ rest.0, rw (c.1, rest.1) refl, ap suc rest.2)

characters-injective :
    (is js : List ℕ)
    → All Below64 is
    → All Below64 js
    → length is ≡ length js
    → characters is ≡ characters js
    → is ≡ js
unfolding characters
characters-injective [] [] h k l e = refl
characters-injective [] (j ∷ js) h k l e = ground arith
characters-injective (i ∷ is) [] h k l e = ground arith
characters-injective (i ∷ is) (j ∷ js) h k l e =
    let c = nth-map i h.0 in
    let d = nth-map j k.0 in
    let cs = characters-some is h.1 in
    let ds = characters-some js k.1 in
    ground
      (arith, c.1, c.2, d.1, d.2, cs.1, ds.1, characters-injective is js h.1 k.1 (omega (arith, l)))

indices-bound : (a b c : ℕ) → a < 2 ^ 64 → b < 2 ^ 64 → c < 2 ^ 64 → All Below64 (indices a b c)
indices-bound a b c h k l = All-append Below64 (sextets 10 a) _ (sextets-bound 10 a) (
    All-append Below64 (sextets 10 b) _ (sextets-bound 10 b) (
      All-append Below64 (sextets 10 c) _ (sextets-bound 10 c)
        (omega (arith, shifted-bound a h), (omega (arith, shifted-bound c l), tt))))

length-indices : (a b c : ℕ) → length (indices a b c) ≡ 32
unfolding sextets
length-indices a b c = refl

-- The last two characters determine what is left of the words.
last_two-injective :
    (a b c d e f : ℕ)
    → a < 16
    → b < 16
    → c < 16
    → d < 16
    → e < 16
    → f < 16
    → last_two a b c ≡ last_two d e f
    → (a ≡ d) × (b ≡ e) × (c ≡ f)
last_two-injective a b c d e f la lb lc ld le lf h = (ground arith, ground arith, ground arith)

indices-injective :
    (a b c d e f : ℕ)
    → a < 2 ^ 64
    → b < 2 ^ 64
    → c < 2 ^ 64
    → d < 2 ^ 64
    → e < 2 ^ 64
    → f < 2 ^ 64
    → indices a b c ≡ indices d e f
    → (a ≡ d) × (b ≡ e) × (c ≡ f)
indices-injective a b c d e f la lb lc ld le lf h =
    let last =
      last_two-injective (shifted 10 a) (shifted 10 b) (shifted 10 c) (shifted 10 d) (shifted 10 e)
        (shifted 10 f) (shifted-bound a la) (shifted-bound b lb) (shifted-bound c lc)
        (shifted-bound d ld) (shifted-bound e le) (shifted-bound f lf)
        (unfold sextets in ap (drop 30) h) in
    (
      sextets-injective 10 a d (unfold sextets in ap (take 10) h) last.0,
      sextets-injective 10 b e (unfold sextets in ap (λ is. take 10 (drop 10 is)) h) last.1,
      sextets-injective 10 c f (unfold sextets in ap (λ is. take 10 (drop 20 is)) h) last.2,
    )

first_call :
    (s : Authorization) (a b c : ℕ) (code : Bytes)
    → s.initialize ≡ true
    → characters (indices a b c) ≡ some code
    → get_authorization_code s a b c ≡ some (record { initialize = false; code = code })
unfolding get_authorization_code
first_call s a b c code i e = rw (i, e) refl

-- The first call with three 64-bit words reads no character outside the map, and gives a code of 32
-- characters.
pub get_authorization_code-length :
    (s : Authorization) (a b c : ℕ)
    → s.initialize ≡ true
    → a < 2 ^ 64
    → b < 2 ^ 64
    → c < 2 ^ 64
    → (code : Bytes) × (get_authorization_code s a b c
        ≡ some (record { initialize = false; code = code }))
      × (length code ≡ 32)
get_authorization_code-length s a b c i h k l =
    let code = characters-some (indices a b c) (indices-bound a b c h k l) in
    (code.0, first_call s a b c code.0 i code.1, code.2 ∙ length-indices a b c)

-- Two first calls with 64-bit words that give the same code were given the same words: all 192
-- random bits are in the code.
pub get_authorization_code-injective :
    (s t : Authorization) (a b c d e f : ℕ)
    → s.initialize ≡ true
    → t.initialize ≡ true
    → a < 2 ^ 64
    → b < 2 ^ 64
    → c < 2 ^ 64
    → d < 2 ^ 64
    → e < 2 ^ 64
    → f < 2 ^ 64
    → get_authorization_code s a b c ≡ get_authorization_code t d e f
    → (a ≡ d) × (b ≡ e) × (c ≡ f)
get_authorization_code-injective s t a b c d e f i j la lb lc ld le lf h =
    let ks = indices-bound a b c la lb lc in
    let ls = indices-bound d e f ld le lf in
    let code = characters-some (indices a b c) ks in
    let other = characters-some (indices d e f) ls in
    indices-injective a b c d e f la lb lc ld le lf (
      characters-injective (indices a b c) (indices d e f) ks ls
        (length-indices a b c ∙ sym (length-indices d e f))
        (code.1
          ∙ ap (λ r. elim r [ none ↦ some [] | some u ↦ some u.code ])
              (sym (first_call s a b c code.0 i code.1) ∙ h ∙ first_call t d e f other.0 j other.1)
          ∙ sym other.1))

-- A later call gives the code of the first one, whatever the words.
pub get_authorization_code-again :
    (s t : Authorization) (a b c d e f : ℕ)
    → get_authorization_code s a b c ≡ some t
    → get_authorization_code t d e f ≡ some t
unfolding get_authorization_code
get_authorization_code-again s t a b c d e f h = ground arith
