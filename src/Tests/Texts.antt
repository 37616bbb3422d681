-- ===== src/Tests/Texts.antt =====
-- The theorems on the configuration file and the connection at concrete inputs.
use proj8315server.Base.{◌≡◌, none, some, List, [], ◌∷◌, text_eq}
use proj8315server.Config.{Text, split, equals_sign}
use proj8315server.Config.Split.{Rejoins, Undivided, split-Rejoins}
use proj8315server.Database.{connected, null_pointer, opened, not_open, committed, no_rows}
use proj8315server.Database.Lifetime.{connects, disconnects, queries, run, deleted_faults}

abbrev equal_line : Text
equal_line = b'a' ∷ b'=' ∷ b'b' ∷ b'=' ∷ []

split-Rejoins_example :
    (ps : List Text) × (split equal_line equals_sign ≡ some ps)
    × Rejoins equals_sign equal_line ps
    × Undivided equals_sign ps
split-Rejoins_example = split-Rejoins equal_line equals_sign (λ e. cc)

deleted_faults_example :
    (run (disconnects ∷ connects opened ∷ queries (committed no_rows) ∷ []) connected ≡ none)
    × (run (connects not_open ∷ connects opened ∷ queries (committed no_rows) ∷ []) null_pointer
        ≡ none)
deleted_faults_example = deleted_faults (opened ∷ []) (committed no_rows)
