-- ===== src/Types/Answers.antt =====
-- Postconditions on what the functions of Types.antt and Assign.antt return.
use carbonlang.Prelude.{
  ◌&&◌, ◌≡◌, refl, subst, Bool, true, false, Option, some, none, if◌then◌else◌,
}
use carbonlang.Types.{and_then}

-- There is an answer, and it satisfies the predicate.
pub data Answers {A : Type 0} (P : A → Type 0) : Option A → Type 0 where
  answers : {a : A} → P a → Answers P (some a)

abbrev pub Any : {A : Type 0} → A → Type 0
Any a = Unit

pub Answers-if :
    {A : Type 0} {P : A → Type 0} (c : Bool) {x y : Option A}
    → (c ≡ true → Answers P x)
    → (c ≡ false → Answers P y)
    → Answers P (if c then x else y)
Answers-if true h k = h refl
Answers-if false h k = k refl

pub Answers-and_then :
    {A B : Type 0} {P : A → Type 0} {Q : B → Type 0} (o : Option A) {f : A → Option B}
    → Answers P o
    → ((a : A) → P a → Answers Q (f a))
    → Answers Q (and_then o f)
Answers-and_then _ (answers {a} p) k = k a p

pub Answers-map :
    {A : Type 0} {P Q : A → Type 0} (o : Option A)
    → Answers P o
    → ((a : A) → P a → Q a)
    → Answers Q o
Answers-map _ (answers {a} p) k = answers (k a p)

-- An answer, if there is one, satisfies the predicate.
pub data Says {A : Type 0} (P : A → Type 0) : Option A → Type 0 where
  nothing : Says P none
  says : {a : A} → P a → Says P (some a)

pub Says-if :
    {A : Type 0} {P : A → Type 0} (c : Bool) {x y : Option A}
    → (c ≡ true → Says P x)
    → (c ≡ false → Says P y)
    → Says P (if c then x else y)
Says-if true h k = h refl
Says-if false h k = k refl

pub Says-and_then :
    {A B : Type 0} {P : B → Type 0} (o : Option A) {f : A → Option B}
    → ((a : A) → o ≡ some a → Says P (f a))
    → Says P (and_then o f)
Says-and_then none k = nothing
Says-and_then (some a) k = k a refl

pub Says-some : {A : Type 0} {P : A → Type 0} {o : Option A} {a : A} → Says P o → o ≡ some a → P a
Says-some nothing e = cc
Says-some {P = P} (says p) e = subst P (cc) p

pub Says-map :
    {A : Type 0} {P Q : A → Type 0} (o : Option A) → Says P o → ((a : A) → P a → Q a) → Says Q o
Says-map _ nothing k = nothing
Says-map _ (says {a} p) k = says (k a p)

-- A test that fails, or holds, leaves its branch.
pub if_false : {A : Type 0} (c : Bool) (x : A) {y : A} → c ≡ false → (if c then x else y) ≡ y
if_false c x e = rw e refl

pub if_true : {A : Type 0} (c : Bool) {x : A} (y : A) → c ≡ true → (if c then x else y) ≡ x
if_true c y e = rw e refl

-- A conjunction that holds.
pub and_both : (a b : Bool) → (a && b) ≡ true → (a ≡ true) × (b ≡ true)
and_both true b h = (refl, h)
and_both false b h = cc
