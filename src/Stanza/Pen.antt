-- ===== src/Stanza/Pen.antt =====
-- xmpp-stanza.c: what the rendering keeps between two calls of im_snprintf, and _render_update.
use imcore.Prelude.{ℕ, zero, suc, ◌+◌, ◌-◌}
use imcore.Prelude.{ltb, if◌then◌else◌, List, [], ◌∷◌, ◌++◌, Option, none, some, take}
use imcore.Prelude.{Run, ok, fault, null_pointer, ◌>>=◌, length}
use imcore.Prelude.Bytes.{write_bytes}

-- `ptr` is a place in the one buffer that is filled.
pub record Pen : Type 0 where
  pub buf : List ℕ
  pub written : ℕ
  pub left : ℕ
  pub ptr : Option ℕ

-- `im_snprintf(ptr, left, …)`, which cuts the text to `left` with its NUL and writes nothing for 0.
unfoldable pub im_snprintf : List ℕ → Option ℕ → ℕ → List ℕ → Run (List ℕ)
im_snprintf buf ptr zero text = ok buf
im_snprintf buf none (suc left) text = fault null_pointer
im_snprintf buf (some p) (suc left) text = write_bytes buf p (take left text ++ 0 ∷ [])

unfoldable pub forward : Option ℕ → ℕ → Option ℕ
forward none n = none
forward (some p) n = some (p + n)

unfoldable pub render_update : ℕ → Pen → ℕ → Pen
render_update size pen lastwrite =
    if ltb size (pen.written + lastwrite)
    then record { buf = pen.buf; written = pen.written + lastwrite; left = 0; ptr = none }
    else record {
      buf = pen.buf;
      written = pen.written + lastwrite;
      left = pen.left - lastwrite;
      ptr = forward pen.ptr lastwrite;
    }

-- One call of im_snprintf, whose answer is the length of the whole text, and the update behind it.
unfoldable pub emit : ℕ → Pen → List ℕ → Run Pen
emit size pen text = do
  buf ← im_snprintf pen.buf pen.ptr pen.left text
  ok (render_update size (record pen { buf = buf }) (length text))

unfoldable pub start : List ℕ → Option ℕ → ℕ → Pen
start buf ptr size = record { buf = buf; written = 0; left = size; ptr = ptr }

-- The pen after a text that has been written from `start` on.
unfoldable pub after : List ℕ → Option ℕ → ℕ → List ℕ → Run Pen
after buf ptr size text = emit size (start buf ptr size) text
