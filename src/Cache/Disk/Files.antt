-- ===== src/Cache/Disk/Files.antt =====
-- Files by path: what removal and placement leave.
use pawrly.Prelude.{
  ◌≡◌, refl, ap, ◌↔◌, true, false, none, some, List, [], ◌∷◌, if◌then◌else◌, text_eq_iff,
  text_eq_refl, arith,
}
use pawrly.Cache.Types.{FilePath}
use pawrly.Cache.Disk.{
  Disk, Io, Contents, path_eq, file_at, without_file, remove_file, place_file, read_parquet,
}

path_eq_sound : (p q : FilePath) → path_eq p q ≡ true → p ≡ q
unfolding path_eq
path_eq_sound [] [] h = refl
path_eq_sound [] (d ∷ q) h = cc
path_eq_sound (c ∷ p) [] h = cc
path_eq_sound (c ∷ p) (d ∷ q) h = ground (arith, path_eq_sound p q, (text_eq_iff c d).0)

path_eq_refl : (p : FilePath) → path_eq p p ≡ true
unfolding path_eq
path_eq_refl [] = refl
path_eq_refl (c ∷ p) = rw (text_eq_refl c, path_eq_refl p)

pub path_eq_iff : (p q : FilePath) → (path_eq p q ≡ true) ↔ (p ≡ q)
path_eq_iff p q = (path_eq_sound p q, λ e. cc (ap (path_eq p) e, path_eq_refl p))

module _ {Row : Type 0} where
  pub file_at-without_file :
      (p q : FilePath) (fs : List (FilePath × Contents Row))
      → file_at p (without_file q fs) ≡ (if path_eq q p then none else file_at p fs)
  unfolding file_at without_file
  file_at-without_file p q [] = ground arith
  file_at-without_file p q ((r, c) ∷ fs) =
      ground (arith, file_at-without_file p q fs, path_eq_iff r q, path_eq_iff r p, path_eq_iff q p)

  pub file_at-place_file :
      (p q : FilePath) (c : Contents Row) (d : Disk Row)
      → file_at p (place_file q c d).files ≡ (if path_eq q p then some c else file_at p d.files)
  unfolding place_file file_at
  file_at-place_file p q c d = ground (arith, file_at-without_file p q d.files)

  pub file_at-remove_file :
      (io : Io) (p q : FilePath) (d : Disk Row)
      → path_eq q p ≡ false
      → file_at p (remove_file io q d).files ≡ file_at p d.files
  unfolding remove_file
  file_at-remove_file io p q d n = ground (arith, file_at-without_file p q d.files)

  pub read_parquet-absent :
      (p : FilePath) (d : Disk Row) → file_at p d.files ≡ none → read_parquet p d ≡ none
  unfolding read_parquet
  read_parquet-absent p d h = rw (h, read_parquet)
