-- ===== src/Header/Tests.antt =====
-- Concrete headers: the theorems on headers, at an input where their hypotheses hold.
use lrzip.Common.{ℕ, ◌+◌, ◌*◌, ◌^◌, ◌≤◌, ◌≡◌, refl, arith, List, [], ◌∷◌, ◌++◌, true, false, some}
use lrzip.Common.Bytes.{array}
use lrzip.Header.Kdf.{nloops, enc_loops, nloops-enc_loops}
use lrzip.Header.Magic.{Flags, Control, magic_bytes, write_magic, get_magic, read_magic}
use lrzip.Header.Magic.Stages.{IsMode}
use lrzip.Header.Magic.RoundTrip.{Learnt, get_magic-magic_bytes}
use lrzip.Header.Magic.File.{Recovered, read_magic-write_magic}
use lrzip.Header.Lrzc.{
  write_lrzc_header, patch_lrzc_c_size, read_lrzc_header, block_of,
  read_lrzc_header-patch_lrzc_c_size,
}

abbrev no_flags : Flags
no_flags = record {
  stdin = false;
  stdout = false;
  md5 = true;
  hash = false;
  not_lzma = false;
  encrypt = false;
  encrypt_legacy = false;
  encrypt_aead = false;
  streaming_blocks = false;
}

abbrev plain : Control
plain = record {
  flags = no_flags;
  major_version = 0;
  minor_version = 7;
  st_size = 12345;
  eof = true;
  salt = λ i. i + 4;
  lzma_properties = λ i. i + 93;
  encloops = 0;
  aead_iters = 600000;
  aead_salt = λ i. i;
  last_block = 0;
  blocks_done = 0;
  magic_written = false;
}

abbrev sealed : Control
sealed = record plain { flags = record no_flags { encrypt = true; encrypt_aead = true } }

plain-IsMode : IsMode plain
unfolding enc_loops
plain-IsMode = record {
  one_mode = λ on. absurd (ground arith);
  loops = 5 * 2 ^ 4;
  counted = λ on old. refl;
  some_loops = omega arith;
}

sealed-IsMode : IsMode sealed
unfolding enc_loops
sealed-IsMode = record {
  one_mode = λ on. refl;
  loops = 5 * 2 ^ 4;
  counted = λ on old. refl;
  some_loops = omega arith;
}

get_magic-magic_bytes_example :
    (r' : Control) × (get_magic sealed (array (magic_bytes 0 7 plain)) ≡ some r')
    × Learnt 0 7 plain r'
get_magic-magic_bytes_example =
    get_magic-magic_bytes 0 7 plain sealed plain-IsMode refl (omega arith) (omega arith)

read_magic-write_magic_example :
    (known full : Control) × (get_magic plain (array (magic_bytes 0 7 sealed)) ≡ some known)
    × (read_magic plain ((write_magic 0 7 sealed).0 ++ (1 ∷ []))
        ≡ some (full, full.st_size, 1 ∷ []))
    × Learnt 0 7 sealed known
    × Recovered sealed known full
read_magic-write_magic_example =
    read_magic-write_magic 0 7 sealed plain sealed-IsMode refl (omega arith) (omega arith) refl refl
      refl (omega arith) (omega arith) (1 ∷ [])

nloops-enc_loops_example :
    (enc_loops (nloops 5000000).0 (nloops 5000000).1
      ≡ some ((nloops 5000000).1 * 2 ^ (nloops 5000000).0))
    × (1 ≤ (nloops 5000000).1)
    × ((nloops 5000000).1 ≤ 255)
    × ((nloops 5000000).0 ≤ 40)
nloops-enc_loops_example = nloops-enc_loops 5000000 (omega arith)

read_lrzc_header-patch_lrzc_c_size_example :
    (file : List ℕ) × (patch_lrzc_c_size
        ((write_lrzc_header false (9 ∷ []) 100 true).0 ++ (1 ∷ 2 ∷ []))
        (write_lrzc_header false (9 ∷ []) 100 true).1
      ≡ some ((9 ∷ []) ++ file))
    × (read_lrzc_header false file ≡ some (block_of false 100 true 2, 1 ∷ 2 ∷ []))
read_lrzc_header-patch_lrzc_c_size_example =
    read_lrzc_header-patch_lrzc_c_size false (9 ∷ []) (1 ∷ 2 ∷ []) 100 true (omega arith)
      (omega arith) (omega arith)
