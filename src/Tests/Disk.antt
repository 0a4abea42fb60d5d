-- ===== src/Tests/Disk.antt =====
-- A machine in memory that keeps the promises of `IsMachine`: files by their path, a table, and a
-- hash that is only as long as a digest.
use mathlib.Core.List.{Mem, mem-cons_self, mem-cons, append-nil, append_assoc}
use executorch_bencher.Prelude.{
  ℕ, zero, suc, ◌<◌, ◌%◌, ℤ, int_eq, int_eq-eq, String, Bool, true, false, ◌&&◌, ◌≡◌, refl, ap, ◌∙◌,
  Option, none, some, List, [], ◌∷◌, ◌++◌, Result, ok, err, arith, if◌then◌else◌, is_some, inr,
}
use mathlib.Core.Bool.{and-eq-true_iff}
use executorch_bencher.Prelude.Lists.{length, All}
use executorch_bencher.Prelude.Text.{str_eq, eq_iff, eq_refl}
use executorch_bencher.ArtifactStore.{IoError, not_found, other_io, ArtifactRow}
use executorch_bencher.ArtifactStore.Machine.{Bytes, Hasher, Machine, Spares, IsMachine}

-- 32 bytes: the number of bytes fed, modulo 256, and zeros.
abbrev pub zeros : ℕ → Bytes
zeros zero = []
zeros (suc n) = 0 ∷ zeros n

pub zeros-All : (n : ℕ) → All (λ b. b < 256) (zeros n)
zeros-All zero = tt
zeros-All (suc n) = (omega arith, zeros-All n)

abbrev pub hasher : Hasher
hasher = record {
  Sha256 = Bytes;
  new = [];
  update = ◌++◌;
  finalize = λ b. length b % 256 ∷ zeros 31;
  update_nil = append-nil;
  update_append = append_assoc;
  finalize-length = λ b. refl;
  finalize-All = λ b. (omega arith, zeros-All 31);
}

pub record Disk : Type 0 where
  pub files : String → Option Bytes
  pub table : List ArtifactRow

abbrev with_file : Disk → String → Option Bytes → Disk
with_file d p o = record d { files = λ q. if str_eq q p then o else d.files q }

abbrev append_to : Disk → String → Bytes → Option Bytes → Result IoError (Unit {0}) × Disk
append_to d p b none = (err (other_io "not open"), d)
append_to d p b (some old) = (ok tt, with_file d p (some (old ++ b)))

abbrev move_file : Disk → String → String → Option Bytes → Result IoError (Unit {0}) × Disk
move_file d p q none = (err (not_found "no such file"), d)
move_file d p q (some b) = (ok tt, with_file (with_file d p none) q (some b))

abbrev find_id : List ArtifactRow → String → ℤ → Option String
find_id [] sha n = none
find_id (r ∷ rows) sha n =
    if str_eq r.sha256 sha && int_eq r.size_bytes n then some r.id else find_id rows sha n

abbrev pub disk : Machine
disk = record {
  State = Disk;
  create_dir_all = λ p d. (ok tt, d);
  create = λ p d. (ok tt, with_file d p (some []));
  remove_file = λ p d. (ok tt, with_file d p none);
  rename = λ p q d. move_file d p q (d.files p);
  write_all = λ c p b d. append_to d p b (d.files p);
  shutdown = λ c p d. (ok tt, d);
  exists = λ d p. is_some (d.files p);
  content = λ d c p. d.files p;
  insert_row = λ r d. (ok tt, record d { table = r ∷ d.table });
  select_id = λ sha n d. ok (find_id d.table sha n);
  rows = λ d. d.table;
}

-- A file other than the one at `p` is as it was.
with_file-Spares : (d : Disk) (p : String) (o : Option Bytes) → Spares disk p d (with_file d p o)
with_file-Spares d p o = record { same_rows = refl; kept = λ q ne e. ground (arith, eq_iff q p) }

append_to-Spares :
    (d : Disk) (p : String) (b : Bytes) (o : Option Bytes) → Spares disk p d (append_to d p b o).1
append_to-Spares d p b none = record { same_rows = refl; kept = λ q ne e. e }
append_to-Spares d p b (some old) = with_file-Spares d p (some (old ++ b))

move_file-Spares :
    (d : Disk) (p q : String) (o : Option Bytes) → Spares disk p d (move_file d p q o).1
move_file-Spares d p q none = record { same_rows = refl; kept = λ r ne e. e }
move_file-Spares d p q (some b) = record {
  same_rows = refl;
  kept = λ r ne e. ground (arith, eq_iff r p, eq_iff r q);
}

with_file_self : (d : Disk) (p : String) (o : Option Bytes) → (with_file d p o).files p ≡ o
with_file_self d p o = ground (arith, eq_refl p)

append_to-Taken :
    (d : Disk) (p : String) (a b : Bytes) (o : Option Bytes)
    → o ≡ some a
    → (append_to d p b o).1.files p ≡ some (a ++ b)
append_to-Taken d p a b none h = cc
append_to-Taken d p a b (some c) h =
    with_file_self d p (some (c ++ b)) ∙ ap (λ z. some (z ++ b)) (cc)

move_file-moves :
    (d : Disk) (p q : String) (o : Option Bytes) (b : Bytes)
    → o ≡ some b
    → (move_file d p q o).1.files q ≡ some b
move_file-moves d p q none b h = cc
move_file-moves d p q (some c) b h = with_file_self (with_file d p none) q (some c) ∙ h

move_file-exists :
    (d : Disk) (p q : String) (o : Option Bytes)
    → (move_file d p q o).0 ≡ ok tt
    → is_some ((move_file d p q o).1.files q) ≡ true
move_file-exists d p q none h = cc
move_file-exists d p q (some c) h = ap is_some (with_file_self (with_file d p none) q (some c))

abbrev Found : List ArtifactRow → String → ℤ → String → Type 0
Found rows sha n id =
    (r : ArtifactRow) × (Mem r rows) × (r.id ≡ id) × (r.sha256 ≡ sha) × (r.size_bytes ≡ n)

find_id-Found :
    (rows : List ArtifactRow) (sha id : String) (n : ℤ)
    → find_id rows sha n ≡ some id
    → Found rows sha n id
find_id-Found [] sha id n h = cc
find_id-Found (r ∷ rows) sha id n h = by_test _ refl (find_id-Found rows sha id n) h
  where
    by_test :
        (b : Bool)
        → (str_eq r.sha256 sha && int_eq r.size_bytes n) ≡ b
        → (find_id rows sha n ≡ some id → Found rows sha n id)
        → (if b then some r.id else find_id rows sha n) ≡ some id
        → Found (r ∷ rows) sha n id
    by_test true t later e =
        let (same, size) = (and-eq-true_iff _ _).0 t in
        (r, mem-cons_self, cc, (eq_iff r.sha256 sha).0 same, int_eq-eq _ _ size)
    by_test false t later e =
        let (s, there, i, q, n) = later e in (s, mem-cons.1 ∣ inr there ∣₁, i, q, n)

pub disk-IsMachine : IsMachine disk
disk-IsMachine = record {
  create_dir_all-Spares = λ p q d. record { same_rows = refl; kept = λ r ne e. e };
  create-Spares = λ p d. with_file-Spares d p (some []);
  remove_file-Spares = λ p d. with_file-Spares d p none;
  rename-Spares = λ p q d. move_file-Spares d p q (d.files p);
  write_all-Spares = λ c p b d. append_to-Spares d p b (d.files p);
  shutdown-Spares = λ c p d. record { same_rows = refl; kept = λ r ne e. e };
  Taken = λ d c p b. d.files p ≡ some b;
  create-Taken = λ c p d e. with_file_self d p (some []);
  write_all-Taken = λ c p a b d taken e. append_to-Taken d p a b (d.files p) taken;
  content-shutdown = λ c p b d taken e. taken;
  content-create_dir_all = λ c p q b d e. e;
  content-rename = λ c p q b d e f. move_file-moves d p q (d.files p) b e;
  exists-rename = λ p q d e. move_file-exists d p q (d.files p) e;
  insert_row-ok = λ r d e. refl;
  insert_row-err = λ r e d p. cc;
  exists-insert_row = λ r q d. refl;
  content-insert_row = λ r c q d. refl;
  select_id_lem = λ sha id n d e. find_id-Found d.table sha id n (cc);
}
