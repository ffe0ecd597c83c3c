-- ===== src/Tests/Encrypters.antt =====
-- Encrypters with two documents.
use duck_duck_xor.Base.{refl, false, List, [], ◌∷◌}
use duck_duck_xor.Base.{Inevitably}
use duck_duck_xor.Preprocess.{Document}
use duck_duck_xor.DocEncrypter.{doc_aborts}
use duck_duck_xor.DocEncrypter.Pool.{Step, Panics, start_streamer}
use duck_duck_xor.DocEncrypter.Pool.Close.{start_streamer-Panics}
use duck_duck_xor.DocEncrypter.Pool.Uploads.{AllUploaded, start_streamer-AllUploaded}
use duck_duck_xor.Tests.Data.{duck, xor, secret}

abbrev two_files : List Document
two_files =
    record { content = duck; position = 0; doc_id = 0; faulty = false }
    ∷ record { content = xor; position = 0; doc_id = 1; faulty = false }
    ∷ []

start_streamer-Panics_example :
    Inevitably (Step secret) (λ s. ⊥) Panics (start_streamer 2 two_files)
start_streamer-Panics_example = start_streamer-Panics secret 0 two_files

start_streamer-AllUploaded_example :
    Inevitably (Step secret) Panics (AllUploaded secret two_files) (start_streamer 1 two_files)
unfolding doc_aborts
start_streamer-AllUploaded_example = start_streamer-AllUploaded secret two_files (refl, (refl, tt))
