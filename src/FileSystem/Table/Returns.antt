-- ===== src/FileSystem/Table/Returns.antt =====
-- A condition on the result of an operation that has one.
use sistemas_operativos.Prelude.{
  ℕ, ◌<◌, ◌≡◌, refl, arith, ltb, Option, none, some, Bool, true, false, if◌then◌else◌, ℤ, pos,
  negsuc,
}
use sistemas_operativos.FileSystem.State.{max_inodes, Filesystem}
use sistemas_operativos.FileSystem.Table.{Outcome, ◌>>=◌, table_index}

-- The operation has a result, with the code and the file system of which the condition holds.
pub data Returns {A : Type 0} (P : A → Filesystem → Type 0) : Outcome A → Type 0 where
  returns : {a : A} {fs : Filesystem} → P a fs → Returns P (some (a, fs))

in_table : (n : ℕ) → n < max_inodes → table_index (pos n) ≡ some n
unfolding table_index
in_table n h = rw (fits n h) refl
  where
    fits : (n : ℕ) → n < max_inodes → ltb n max_inodes ≡ true
    fits n h = ground arith

module _ {A : Type 0} where
  pub Returns-mono :
      (P Q : A → Filesystem → Type 0) (o : Outcome A)
      → Returns P o
      → ((a : A) (fs : Filesystem) → P a fs → Q a fs)
      → Returns Q o
  Returns-mono P Q o (returns h) k = returns (k _ _ h)

  pub Returns->>= :
      {B : Type 0} (P : B → Filesystem → Type 0) (Q : A → Filesystem → Type 0) (o : Outcome B)
      (f : B × Filesystem → Outcome A)
      → Returns P o
      → ((b : B) (fs : Filesystem) → P b fs → Returns Q (f (b, fs)))
      → Returns Q (o >>= f)
  Returns->>= P Q o f (returns h) k = k _ _ h

  module _ (Q : A → Filesystem → Type 0) where
    pub Returns-index :
        (n : ℕ) (f : ℕ → Outcome A)
        → n < max_inodes
        → Returns Q (f n)
        → Returns Q (table_index (pos n) >>= f)
    Returns-index n f h k = rw (in_table n h) k

    pub Returns-if :
        (b : Bool) (x y : Outcome A)
        → (b ≡ true → Returns Q x)
        → (b ≡ false → Returns Q y)
        → Returns Q (if b then x else y)
    Returns-if true x y p q = p refl
    Returns-if false x y p q = q refl

    pub Returns-option :
        {B : Type 0} (o : Option B) (x : Outcome A) (f : B → Outcome A)
        → (o ≡ none → Returns Q x)
        → ((b : B) → o ≡ some b → Returns Q (f b))
        → Returns Q (elim o [ none ↦ x | some b ↦ f b ])
    Returns-option none x f p q = p refl
    Returns-option (some b) x f p q = q b refl

    pub Returns-int :
        (n : ℤ) (f g : ℕ → Outcome A)
        → ((k : ℕ) → n ≡ pos k → Returns Q (f k))
        → ((k : ℕ) → n ≡ negsuc k → Returns Q (g k))
        → Returns Q (elim n [ pos k ↦ f k | negsuc k ↦ g k ])
    Returns-int (pos k) f g p q = p k refl
    Returns-int (negsuc k) f g p q = q k refl
