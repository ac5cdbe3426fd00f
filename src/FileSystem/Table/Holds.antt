-- ===== src/FileSystem/Table/Holds.antt =====
-- A condition on the result of an operation, where it has one, and the rule for a chain of two.
use sistemas_operativos.Prelude.{
  ℕ, Option, none, some, ◌≡◌, refl, Bool, true, false, if◌then◌else◌, ℤ, pos, negsuc,
}
use sistemas_operativos.FileSystem.State.{Filesystem}
use sistemas_operativos.FileSystem.Table.{Outcome, ◌>>=◌}

-- It holds of the code and of the file system that the operation ends with. An access outside the
-- table of inodes has no result.
pub data Holds {A : Type 0} (P : A → Filesystem → Type 0) : Outcome A → Type 0 where
  undefined : Holds P none
  result : {a : A} {fs : Filesystem} → P a fs → Holds P (some (a, fs))

module _ {A : Type 0} where
  pub Holds-mono :
      (P Q : A → Filesystem → Type 0) (o : Outcome A)
      → Holds P o
      → ((a : A) (fs : Filesystem) → P a fs → Q a fs)
      → Holds Q o
  Holds-mono P Q o undefined k = undefined
  Holds-mono P Q o (result h) k = result (k _ _ h)

  pub Holds-result :
      (P : A → Filesystem → Type 0) {a : A} {fs : Filesystem} → Holds P (some (a, fs)) → P a fs
  Holds-result P (result h) = h

  pub Holds->>= :
      {B : Type 0} (P : B → Filesystem → Type 0) (Q : A → Filesystem → Type 0) (o : Outcome B)
      (f : B × Filesystem → Outcome A)
      → Holds P o
      → ((b : B) (fs : Filesystem) → P b fs → Holds Q (f (b, fs)))
      → Holds Q (o >>= f)
  Holds->>= P Q o f undefined k = undefined
  Holds->>= P Q o f (result h) k = k _ _ h

  -- The rules for the tests and the matches of an operation; each keeps the equation of its case.
  module _ (Q : A → Filesystem → Type 0) where
    pub Holds-index :
        {B : Type 0} (o : Option B) (f : B → Outcome A)
        → ((b : B) → o ≡ some b → Holds Q (f b))
        → Holds Q (o >>= f)
    Holds-index none f k = undefined
    Holds-index (some b) f k = k b refl

    pub Holds-if :
        (b : Bool) (x y : Outcome A)
        → (b ≡ true → Holds Q x)
        → (b ≡ false → Holds Q y)
        → Holds Q (if b then x else y)
    Holds-if true x y p q = p refl
    Holds-if false x y p q = q refl

    pub Holds-option :
        {B : Type 0} (o : Option B) (x : Outcome A) (f : B → Outcome A)
        → (o ≡ none → Holds Q x)
        → ((b : B) → o ≡ some b → Holds Q (f b))
        → Holds Q (elim o [ none ↦ x | some b ↦ f b ])
    Holds-option none x f p q = p refl
    Holds-option (some b) x f p q = q b refl

    pub Holds-int :
        (n : ℤ) (f g : ℕ → Outcome A)
        → ((k : ℕ) → n ≡ pos k → Holds Q (f k))
        → ((k : ℕ) → n ≡ negsuc k → Holds Q (g k))
        → Holds Q (elim n [ pos k ↦ f k | negsuc k ↦ g k ])
    Holds-int (pos k) f g p q = p k refl
    Holds-int (negsuc k) f g p q = q k refl
