-- ===== src/Text/Paths.antt =====
-- carbonc/fs.cc: taking a path apart, and putting it together again.
use carbonlang.Prelude.{
  ℕ, zero, suc, ◌+◌, ◌<◌, ◌≤◌, ◌≡◌, ◌⊎◌, refl, sym, ap, subst, ◌∙◌, inl, inr, Bool, true, false,
  not, ◌&&◌, Option, some, none, [], ◌∷◌, ◌++◌, Bytes, get_or, take, drop, take-append-drop, arith,
  ◌==◌, ==_iff, Bool-cases, Option-cases,
}
use carbonlang.Text.{
  slash, dot, find_last_of, ends_with, starts_with, starts_name, after_slash, before_dots,
  get_directory, basename, split_extension, join,
}
use carbonlang.Text.Find.{find_last_of-IsLast, find_last_of-drop-none, find_last_of-drop}

-- An extension: a dot, and a name without a dot or a slash.
pub record IsExtension (s : Bytes) : Type 0 where
  pub name : Bytes
  pub dotted : s ≡ dot ∷ name
  pub no_dot : find_last_of dot name ≡ none
  pub no_slash : find_last_of slash name ≡ none

-- The place follows a name: a character that is no dot and no slash, and then dots at most.
abbrev pub HasName : Bytes → ℕ → Type 0
HasName s pos =
    (n : ℕ) × (n < pos)
    × ((get_or s n 0 == dot) ≡ false)
    × ((get_or s n 0 == slash) ≡ false)
    × ((k : ℕ) → n < k → k < pos → (get_or s k 0 == dot) ≡ true)

-- Only dots are between the place and the slash before it, or the start.
abbrev pub IsLeading : Bytes → ℕ → Type 0
IsLeading s pos =
    (n : ℕ) × (n ≤ pos)
    × ((n ≡ 0) ⊎ ((m : ℕ) × (n ≡ suc m) × ((get_or s m 0 == slash) ≡ true)))
    × ((k : ℕ) → n ≤ k → k < pos → (get_or s k 0 == dot) ≡ true)

-- Why there is no extension: no dot, or a slash behind the last one, or only dots before that.
abbrev pub IsPlain : Bytes → Type 0
IsPlain s =
    (find_last_of dot s ≡ none)
    ⊎ ((pos : ℕ) × (find_last_of dot s ≡ some pos)
        × (((n : ℕ) × (find_last_of slash s ≡ some n) × (pos < n)) ⊎ IsLeading s pos))

abbrev pub IsSplit : Bytes → Bool → Bytes → Bytes → Type 0
IsSplit filename true root ext =
    (root ++ ext ≡ filename)
    × IsExtension ext
    × ((pos : ℕ) × (root ≡ take pos filename) × HasName filename pos)
IsSplit filename false root ext = (root ≡ filename) × (ext ≡ []) × IsPlain filename

abbrev Dots : Bytes → ℕ → ℕ → Type 0
Dots s from to = (k : ℕ) → from ≤ k → k < to → (get_or s k 0 == dot) ≡ true

-- Where `before_dots` ends: behind the last character before the place that is no dot.
before_dots-Dots :
    (s : Bytes) (pos : ℕ)
    → (before_dots s pos ≤ pos)
      × Dots s (before_dots s pos) pos
      × ((n : ℕ) → before_dots s pos ≡ suc n → (get_or s n 0 == dot) ≡ false)
unfolding before_dots
before_dots-Dots s zero =
    (omega arith, (λ k h l. absurd (omega arith)), λ n e. absurd (omega arith))
before_dots-Dots s (suc pos) = elim (Bool-cases (get_or s pos 0 == dot)) [
  | inl is_dot ↦
      let (le, dots, stop) = before_dots-Dots s pos in
      rw is_dot (
        omega arith,
        (λ k h l. elim (Bool-cases (k == pos)) [
          | inl same ↦
              subst (λ j. (get_or s j 0 == dot) ≡ true) (sym ((==_iff k pos).0 same)) is_dot
          | inr differ ↦ dots k h (ground (arith, differ))
        ]),
        stop,
      )
  | inr other ↦ rw other (
    omega arith,
    (λ k h l. absurd (omega arith)),
    λ n e. subst (λ j. (get_or s j 0 == dot) ≡ false) (omega (arith, e)) other,
  )
]

starts_name-HasName :
    (s : Bytes) (pos p : ℕ)
    → p ≤ pos
    → Dots s p pos
    → ((n : ℕ) → p ≡ suc n → (get_or s n 0 == dot) ≡ false)
    → starts_name s p ≡ false
    → HasName s pos
starts_name-HasName s pos zero le dots stop h = cc
starts_name-HasName s pos (suc n) le dots stop h =
    (n, omega arith, stop n refl, h, λ k l m. dots k (omega arith) m)

starts_name-IsLeading :
    (s : Bytes) (pos p : ℕ) → p ≤ pos → Dots s p pos → starts_name s p ≡ true → IsLeading s pos
starts_name-IsLeading s pos zero le dots h = (0, le, inl refl, dots)
starts_name-IsLeading s pos (suc n) le dots h = (suc n, le, inr (n, refl, h), dots)

after_slash-false :
    (s : Bytes) (pos : ℕ) (last_slash : Option ℕ)
    → find_last_of slash s ≡ last_slash
    → after_slash s last_slash pos ≡ false
    → (n : ℕ) × (find_last_of slash s ≡ some n) × (pos < n)
after_slash-false s pos none e h = cc
after_slash-false s pos (some n) e h = (n, e, ground (arith, h))

after_slash-none :
    (filename : Bytes) (last_slash : Option ℕ) (pos : ℕ)
    → find_last_of slash filename ≡ last_slash
    → find_last_of dot filename ≡ some pos
    → after_slash filename last_slash pos ≡ true
    → find_last_of slash (drop (suc pos) filename) ≡ none
after_slash-none filename none pos h d e = find_last_of-drop-none slash (suc pos) filename h
after_slash-none filename (some n) pos h d e =
    find_last_of-drop slash n (suc pos) filename h (ground arith)

both : (a b : Bool) → (a && not b) ≡ true → (a ≡ true) × (b ≡ false)
both true true h = cc
both true false h = (refl, refl)
both false b h = cc

either : (a b : Bool) → (a && not b) ≡ false → (a ≡ false) ⊎ (b ≡ true)
either true true h = inr refl
either true false h = cc
either false b h = inl refl

by_result :
    (s : Bytes) (r : Bool × Bytes × Bytes)
    → split_extension s ≡ r
    → IsSplit s r.0 r.1 r.2
    → IsSplit s (split_extension s).0 (split_extension s).1 (split_extension s).2
by_result s r e h = subst (λ q. IsSplit s q.0 q.1 q.2) (sym e) h

-- The root and the extension are the name together. An extension is found where the last dot is
-- behind every slash and follows a character of the name that is no dot; it is that dot and what
-- follows, without a dot or a slash. Where there is no dot, or a slash behind the last one, or only
-- leading dots before it, the whole name is the root.
pub split_extension-IsSplit :
    (filename : Bytes)
    → IsSplit filename
        (split_extension filename).0
        (split_extension filename).1
        (split_extension filename).2
unfolding split_extension
split_extension-IsSplit filename = elim (Option-cases (find_last_of dot filename)) [
  | inl missing ↦
      by_result filename (false, filename, []) (rw (split_extension, missing) refl)
        (refl, refl, inl missing)
  | inr (pos, found) ↦
      let p = before_dots filename pos in
      let (le, dots, stop) = before_dots-Dots filename pos in
      let last = find_last_of-IsLast dot pos filename found in
      let behind = after_slash filename (find_last_of slash filename) pos in
      elim (Bool-cases (behind && not (starts_name filename p))) [
        | inl proper ↦
            let (after, named) = both behind (starts_name filename p) proper in
            by_result filename (true, take pos filename, drop pos filename)
              (rw (split_extension, found, proper) refl)
              (
                take-append-drop pos filename,
                record {
                  name = drop (suc pos) filename;
                  dotted = last.is_here;
                  no_dot = last.none_behind;
                  no_slash =
                      after_slash-none filename (find_last_of slash filename) pos refl found after;
                },
                (pos, refl, starts_name-HasName filename pos p le dots stop named),
              )
        | inr other ↦
            by_result filename (false, filename, []) (rw (split_extension, found, other) refl)
              (
                refl,
                refl,
                inr (
                  pos,
                  found,
                  elim (either behind (starts_name filename p) other) [
                    | inl before ↦
                        inl
                          (after_slash-false filename pos (find_last_of slash filename) refl before)
                    | inr leading ↦ inr (starts_name-IsLeading filename pos p le dots leading)
                  ],
                ),
              )
      ]
]

ends_with-take :
    (c n b : ℕ) (f r : Bytes)
    → drop (suc n) f ≡ b ∷ r
    → ends_with c (take (suc n) f) ≡ (get_or f n 0 == c)
ends_with-take c n b [] r h = ground arith
ends_with-take c zero b (x ∷ xs) r h = refl
ends_with-take c (suc n) b (x ∷ []) r h = ground arith
ends_with-take c (suc n) b (x ∷ y ∷ ys) r h = ends_with-take c n b (y ∷ ys) r h

lacks-starts_with : (c : ℕ) (s : Bytes) → find_last_of c s ≡ none → starts_with c s ≡ false
unfolding find_last_of
lacks-starts_with c [] h = refl
lacks-starts_with c (x ∷ xs) h = elim (Bool-cases (x == c)) [
  | inr differ ↦ differ
  | inl same ↦ elim (Option-cases (find_last_of c xs)) [
    | inl missing ↦ ground (arith, rw (missing, same) at h)
    | inr (n, found) ↦ ground (arith, rw found at h)
  ]
]

-- A directory and a name are joined by one slash.
join_plain :
    (p : ℕ) (path filename : Bytes)
    → starts_with slash filename ≡ false
    → ends_with slash (p ∷ path) ≡ false
    → join (p ∷ path) filename ≡ (p ∷ path) ++ slash ∷ filename
unfolding join
join_plain p path filename h k = rw (h, k) refl

-- A path with a slash in it that is neither its first nor its last character and follows no other
-- slash, at the last place that has one: its directory joined with its base name is the path again.
pub join-get_directory :
    (path : Bytes) (n : ℕ)
    → find_last_of slash path ≡ some (suc n)
    → ends_with slash path ≡ false
    → (get_or path n 0 == slash) ≡ false
    → join (get_directory path) (basename path) ≡ path
unfolding get_directory basename
join-get_directory [] n found open_end single =
    absurd (unfold find_last_of in ground (arith, found))
join-get_directory (p ∷ ps) n found open_end single =
    let last = find_last_of-IsLast slash (suc n) (p ∷ ps) found in
    let name = drop (suc (suc n)) (p ∷ ps) in
    let count : suc n + 1 ≡ suc (suc n) = omega arith in
    let closed = ends_with-take slash n slash (p ∷ ps) name last.is_here ∙ single in
    rw (open_end, found, basename)
      (ap (λ k. join (take (suc n) (p ∷ ps)) (drop k (p ∷ ps))) count
        ∙ join_plain p (take n ps) name (lacks-starts_with slash name last.none_behind) closed
        ∙ ap (λ t. take (suc n) (p ∷ ps) ++ t) (sym last.is_here)
        ∙ take-append-drop (suc n) (p ∷ ps))
