-- ===== src/Lexer/Keywords.antt =====
-- The keywords of carbonc/lexer.cc.
use carbonlang.Prelude.{
  ℕ, ◌≡◌, ◌⊎◌, inl, inr, refl, sym, subst, Bool, true, false, List, [], ◌∷◌, ◌++◌, Bytes, bytes_eq,
  bytes_eq_iff, All, Bool-cases, ◌==◌, if◌then◌else◌, length,
}
use carbonlang.Token.{TokenType, identifier}
use carbonlang.Lexer.{Keyword, keywords, first_equal, transform_c_lexer_identifier}

abbrev pub all_keywords : List Keyword
all_keywords =
    keywords 2
    ++ (keywords 3
        ++ (keywords 4
            ++ (keywords 5 ++ (keywords 6 ++ (keywords 7 ++ (keywords 8 ++ keywords 9))))))

pub data Among (k : Keyword) : List Keyword → Type 0 where
  here : {ks : List Keyword} → Among k (k ∷ ks)
  there : {l : Keyword} {ks : List Keyword} → Among k ks → Among k (l ∷ ks)

Among-left : {k : Keyword} {ks : List Keyword} (ls : List Keyword) → Among k ks → Among k (ks ++ ls)
Among-left ls here = here
Among-left ls (there a) = there (Among-left ls a)

Among-right :
    {k : Keyword} (ks : List Keyword) {ls : List Keyword} → Among k ls → Among k (ks ++ ls)
Among-right [] a = a
Among-right (l ∷ ks) a = there (Among-right ks a)

empty : {k : Keyword} {A : Type 0} → Among k [] → A
empty a = elim a [ ]

or_later :
    {s : Bytes} {t : TokenType} {k : Keyword} {ks : List Keyword}
    → (t ≡ identifier) ⊎ Among (s, t) ks
    → (t ≡ identifier) ⊎ Among (s, t) (k ∷ ks)
or_later (inl e) = inl e
or_later (inr a) = inr (there a)

-- What comparison after comparison finds, for a text of any length.
first_equal-Among :
    (ks : List Keyword) (s : Bytes)
    → (first_equal ks s ≡ identifier) ⊎ Among (s, first_equal ks s) ks
unfolding first_equal
first_equal-Among [] s = inl refl
first_equal-Among ((text, t) ∷ ks) s = elim (Bool-cases (bytes_eq text s)) [
  | inl h ↦
      inr (rw h (subst (λ u. Among (s, t) ((u, t) ∷ ks)) (sym ((bytes_eq_iff text s).0 h)) here))
  | inr h ↦ rw h (or_later (first_equal-Among ks s))
]

Among-if :
    {k : Keyword} (c : Bool) {ks ls all : List Keyword}
    → (Among k ks → Among k all)
    → (Among k ls → Among k all)
    → Among k (if c then ks else ls)
    → Among k all
Among-if true f g a = f a
Among-if false f g a = g a

Among-keywords : {k : Keyword} (n : ℕ) → Among k (keywords n) → Among k all_keywords
Among-keywords n a =
    Among-if (n == 2) (Among-left _)
      (Among-if (n == 3) (λ b. Among-right (keywords 2) (Among-left _ b))
        (Among-if (n == 4) (λ b. Among-right (keywords 2 ++ keywords 3) (Among-left _ b))
          (Among-if (n == 5)
            (λ b. Among-right (keywords 2 ++ keywords 3 ++ keywords 4) (Among-left _ b))
            (Among-if (n == 6)
              (λ b.
                Among-right (keywords 2 ++ keywords 3 ++ keywords 4 ++ keywords 5) (Among-left _ b))
              (Among-if (n == 7)
                (λ b.
                  Among-right (keywords 2 ++ keywords 3 ++ keywords 4 ++ keywords 5 ++ keywords 6)
                    (Among-left _ b))
                (Among-if (n == 8)
                  (λ b.
                    Among-right
                      (keywords 2
                        ++ keywords 3
                        ++ keywords 4
                        ++ keywords 5
                        ++ keywords 6
                        ++ keywords 7)
                      (Among-left _ b))
                  (Among-if (n == 9)
                    (λ b.
                      Among-right
                        (keywords 2
                          ++ keywords 3
                          ++ keywords 4
                          ++ keywords 5
                          ++ keywords 6
                          ++ keywords 7
                          ++ keywords 8)
                        b)
                    (λ b. empty b))))))))
      a

spelled : All (λ (text, t). transform_c_lexer_identifier text ≡ t) all_keywords
unfolding transform_c_lexer_identifier bytes_eq
spelled = (
  refl,
  (
    refl,
    (
      refl,
      (
        refl,
        (
          refl,
          (
            refl,
            (
              refl,
              (
                refl,
                (
                  refl,
                  (
                    refl,
                    (
                      refl,
                      (
                        refl,
                        (
                          refl,
                          (
                            refl,
                            (
                              refl,
                              (
                                refl,
                                (
                                  refl,
                                  (
                                    refl,
                                    (
                                      refl,
                                      (
                                        refl,
                                        (
                                          refl,
                                          (
                                            refl,
                                            (
                                              refl,
                                              (
                                                refl,
                                                (
                                                  refl,
                                                  (
                                                    refl,
                                                    (
                                                      refl,
                                                      (
                                                        refl,
                                                        (
                                                          refl,
                                                          (
                                                            refl,
                                                            (
                                                            refl,
                                                            (
                                                            refl,
                                                            (
                                                            refl,
                                                            (refl, (refl, (refl, (refl, tt)))),
                                                            ),
                                                            ),
                                                            ),
                                                          ),
                                                        ),
                                                      ),
                                                    ),
                                                  ),
                                                ),
                                              ),
                                            ),
                                          ),
                                        ),
                                      ),
                                    ),
                                  ),
                                ),
                              ),
                            ),
                          ),
                        ),
                      ),
                    ),
                  ),
                ),
              ),
            ),
          ),
        ),
      ),
    ),
  ),
)

in_table :
    (s : Bytes) {t : TokenType}
    → (t ≡ identifier) ⊎ Among (s, t) (keywords (length s))
    → (t ≡ identifier) ⊎ Among (s, t) all_keywords
in_table s (inl e) = inl e
in_table s (inr a) = inr (Among-keywords (length s) a)

-- Every text of the table of keywords is lexed as its token, and a text that is not lexed as an
-- identifier is one of the table, with its token: the switch on the length loses nothing.
pub transform_c_lexer_identifier-Among :
    (s : Bytes)
    → All (λ (text, t). transform_c_lexer_identifier text ≡ t) all_keywords
      × ((transform_c_lexer_identifier s ≡ identifier)
          ⊎ Among (s, transform_c_lexer_identifier s) all_keywords)
unfolding transform_c_lexer_identifier
transform_c_lexer_identifier-Among s =
    (spelled, in_table s (first_equal-Among (keywords (length s)) s))
