-- ===== src/Telegram/Codec.antt =====
-- The encoders and the decoder together: the frame that both agree on.
pub mod Building
pub mod Lines
pub mod RoundTrip
pub mod Losses
pub mod Contract
use tox_relayer.Prelude.{ℕ, List, [], ◌∷◌, ◌++◌}
use tox_relayer.Prelude.Int.{ℤ}
use tox_relayer.Text.{codes, newline}
use tox_relayer.Telegram.Encode.{terminator, text_meta, cmd_request}

-- The keys, and what follows them.
unfoldable pub keyed : List ℕ → List ℕ → List ℕ → List ℕ
keyed receiver sender rest = receiver ++ (newline ∷ (sender ++ (newline ∷ rest)))

-- The wire format of a TEXT telegram, as src/telegram.h draws it.
unfoldable pub text_frame : List ℕ → List ℕ → ℤ → ℤ → List ℕ → List ℕ
text_frame receiver sender sn timestamp body =
    codes "ZCZC TEXT\n"
    ++ keyed receiver sender (text_meta sn timestamp ++ (body ++ (terminator ++ (newline ∷ []))))

-- The wire format of a control telegram.
unfoldable pub cmd_frame : List ℕ → List ℕ → ℤ → ℤ → List ℕ
cmd_frame receiver sender from to =
    codes "ZCZC CMD\n"
    ++ keyed receiver sender (cmd_request from to ++ (terminator ++ (newline ∷ [])))
