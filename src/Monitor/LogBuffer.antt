-- ===== src/Monitor/LogBuffer.antt =====
-- internal/monitor/logbuffer.go: the buffer of the last `size` bytes of log output.
use easy_proxies.Prelude.{
  false, drop_all, ℕ, ◌-◌, List, [], ◌∷◌, ◌++◌, if◌then◌else◌, ltb, length, drop, Bool-cases, inl,
  inr, ◌≡◌, refl, sym, ap, ◌∙◌, arith, length-append, length-drop, drop-append, drop_sum,
  append_assoc, append-nil,
}

pub record LogBuffer : Type 0 where
  pub buf : List ℕ
  pub size : ℕ

unfoldable pub new_log_buffer : ℕ → LogBuffer
new_log_buffer size = record { buf = []; size = size }

abbrev trim : ℕ → List ℕ → List ℕ
trim size buf = if ltb size (length buf) then drop (length buf - size) buf else buf

-- The new buffer, and the number of bytes written.
unfoldable pub write : LogBuffer → List ℕ → LogBuffer × ℕ
write lb p = (record lb { buf = trim lb.size (lb.buf ++ p) }, length p)

unfoldable pub content : LogBuffer → List ℕ
content lb = lb.buf

unfoldable pub clear : LogBuffer → LogBuffer
clear lb = record lb { buf = [] }

unfoldable pub write_all : LogBuffer → List (List ℕ) → LogBuffer
unfolding write
write_all lb [] = lb
write_all lb (p ∷ ps) = write_all (write lb p).0 ps

abbrev pub joined : List (List ℕ) → List ℕ
joined [] = []
joined (p ∷ ps) = p ++ joined ps

abbrev pub last_bytes : ℕ → List ℕ → List ℕ
last_bytes n xs = drop (length xs - n) xs

trim_lem : (n : ℕ) (buf : List ℕ) → trim n buf ≡ last_bytes n buf
trim_lem n buf = elim (Bool-cases (ltb n (length buf))) [
  | inl e ↦ rw e
  | inr e ↦ rw e (ap (λ k. drop k buf) (none_over e))
]
  where
    none_over : ltb n (length buf) ≡ false → 0 ≡ length buf - n
    none_over e = ground arith

trim_past :
    (n : ℕ) (past p : List ℕ) → last_bytes n (last_bytes n past ++ p) ≡ last_bytes n (past ++ p)
trim_past n past p =
    sym (ap (λ b. last_bytes n b) (drop-append (length past - n) past p (omega arith)))
    ∙ (drop_sum (length (drop (length past - n) (past ++ p)) - n) (length past - n) (past ++ p)
        ∙ ap (λ k. drop k (past ++ p))
            (omega (arith, length-append past p, length-drop (length past - n) (past ++ p))))

write_all_buf :
    (lb : LogBuffer) (ps : List (List ℕ)) (past : List ℕ)
    → lb.buf ≡ last_bytes lb.size past
    → content (write_all lb ps) ≡ last_bytes lb.size (past ++ joined ps)
unfolding write_all write content
write_all_buf lb [] past h = h ∙ sym (ap (last_bytes lb.size) (append-nil past))
write_all_buf lb (p ∷ ps) past h =
    write_all_buf (write lb p).0 ps (past ++ p) (
      trim_lem lb.size (lb.buf ++ p)
      ∙ ap (λ b. last_bytes lb.size (b ++ p)) h
      ∙ trim_past lb.size past p)
    ∙ ap (last_bytes lb.size) (append_assoc past p (joined ps))

write_all-size : (lb : LogBuffer) (ps : List (List ℕ)) → (write_all lb ps).size ≡ lb.size
unfolding write_all write
write_all-size lb [] = refl
write_all-size lb (p ∷ ps) = write_all-size (write lb p).0 ps

-- However the output is cut into writes, the buffer holds its last `size` bytes since it was empty.
pub content-write_all :
    (size : ℕ) (before : List (List ℕ)) (ps : List (List ℕ))
    → content (write_all (clear (write_all (new_log_buffer size) before)) ps)
      ≡ last_bytes size (joined ps)
unfolding clear new_log_buffer
content-write_all size before ps =
    write_all_buf (clear (write_all (new_log_buffer size) before)) ps []
      (sym (drop_all (0 - (clear (write_all (new_log_buffer size) before)).size) [] (omega arith)))
    ∙ ap (λ n. last_bytes n (joined ps)) (write_all-size (new_log_buffer size) before)
