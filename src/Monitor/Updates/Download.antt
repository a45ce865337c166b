-- ===== src/Monitor/Updates/Download.antt =====
-- The download of an asset and the staging of a program: pc/src/pywinhello/monitor/updater.py. A response is
-- what its reads give, one after the other; nothing more to read is an empty chunk.
use pywinhello.Prelude.{
  Bool, List, Option, [], ap, append-nil, append_assoc, false, none, refl, some, true, ◌++◌, ◌∙◌,
  ◌∷◌, ◌≡◌, ◌≢◌,
}
use pywinhello.Prelude.Result.{Result, err, ok}
use pywinhello.Serial.Protocol.{Bytes}

-- What a download leaves: its answer, and the content of the file, if it was opened.
pub record Download : Type 0 where
  pub succeeded : Bool
  pub content : Option Bytes

-- The loop over the chunks, with what has been written.
write_chunks : Bytes → List (Result Bytes) → Download
write_chunks written [] = record { succeeded = true; content = some written }
write_chunks written (err e ∷ reads) = record { succeeded = false; content = some written }
write_chunks written (ok [] ∷ reads) = record { succeeded = true; content = some written }
write_chunks written (ok (b ∷ bs) ∷ reads) = write_chunks (written ++ (b ∷ bs)) reads

-- The file is opened after the request and the directory.
opened_file : Result (Unit {0}) → List (Result Bytes) → Download
unfolding write_chunks
opened_file (ok u) reads = write_chunks [] reads
opened_file (err e) reads = record { succeeded = false; content = none }

unfoldable pub download_asset : Result (List (Result Bytes)) → Result (Unit {0}) → Download
unfolding opened_file
download_asset (err e) file = record { succeeded = false; content = none }
download_asset (ok reads) file = opened_file file reads

-- getattr(sys, "frozen", False), and whether the copy to the staged path returned.
pub apply_software_update : Bool → Result (Unit {0}) → Bool
apply_software_update false copied = false
apply_software_update true (ok u) = true
apply_software_update true (err e) = false

-- The chunks of a response that can be read to its end.
abbrev pub chunks : List Bytes → List (Result Bytes)
chunks [] = ok [] ∷ []
chunks (c ∷ cs) = ok c ∷ chunks cs

abbrev pub concat_chunks : List Bytes → Bytes
concat_chunks [] = []
concat_chunks (c ∷ cs) = c ++ concat_chunks cs

abbrev pub NoneEmpty : List Bytes → Type 0
NoneEmpty [] = Unit
NoneEmpty (c ∷ cs) = (c ≢ []) × NoneEmpty cs

write_chunks-all :
    (written : Bytes) (cs : List Bytes)
    → NoneEmpty cs
    → write_chunks written (chunks cs)
      ≡ record { succeeded = true; content = some (written ++ concat_chunks cs) }
unfolding write_chunks
write_chunks-all written [] n = rw (append-nil written)
write_chunks-all written ([] ∷ cs) (h, n) = absurd (h refl)
write_chunks-all written ((b ∷ bs) ∷ cs) (h, n) =
    write_chunks-all (written ++ (b ∷ bs)) cs n
    ∙ ap (λ w. record { succeeded = true; content = some w })
        (append_assoc written (b ∷ bs) (concat_chunks cs))

-- A response that is read to its end is in the file as it was sent, chunk after chunk.
pub download_asset-all :
    (cs : List Bytes)
    → NoneEmpty cs
    → download_asset (ok (chunks cs)) (ok tt)
      ≡ record { succeeded = true; content = some (concat_chunks cs) }
unfolding download_asset opened_file
download_asset-all cs n = write_chunks-all [] cs n
