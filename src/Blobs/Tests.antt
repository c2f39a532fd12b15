-- ===== src/Blobs/Tests.antt =====
-- Data for the runs.
use chimpbase.Prelude.{ℕ, String, concat, [], ◌∷◌, ◌==◌, if◌then◌else◌}
use chimpbase.Blobs.Memory.{Bytes}
use chimpbase.Blobs.Client.{BlobState}

-- A digest that tells the bytes 1 from the others.
abbrev pub digest : Bytes → String
digest [] = "0"
digest (x ∷ xs) = concat (if x == 1 then "a" else "b") (digest xs)

abbrev pub show : ℕ → String
show n = if n == 1 then "1" else "n"

abbrev pub empty_state : BlobState ℕ
empty_state = record {
  blobs = [];
  uploads = [];
  parts = [];
  driver = record { blobs = []; uploads = [] };
  now = 5;
}
