-- ===== src/Upgrade/Head.antt =====
-- How the request head is read in src/stream/websocket_upgrade.rs.
use open_rmbt_server.Common.{
  ◌≤◌, ◌≡◌, sym, ap, ◌∙◌, subst, inl, inr, true, [], ◌∷◌, ◌++◌, append_assoc, arith, ltb,
  Bool-cases, length, length-append,
}
use open_rmbt_server.Text.{Bytes}
use open_rmbt_server.Io.{ErrorKind, ok, Wire, end_error}
use open_rmbt_server.Io.Laws.{ok-injective}
use open_rmbt_server.Http.Defs.{blank_line, ends_with, head_loop, read_head}

-- Where the loop stops: behind a blank line, with the rest unread.
abbrev Stops : Bytes → Bytes → Bytes → Bytes → Type 0
Stops buf s head rest =
    (buf ++ s ≡ head ++ rest) × (ends_with head blank_line ≡ true) × (length head ≤ 8193)

head_loop-Stops :
    (e : ErrorKind) (buf s head : Bytes)
    → length buf ≤ 8192
    → (head_loop e buf s).0 ≡ ok head
    → Stops buf s head (head_loop e buf s).1
unfolding head_loop
head_loop-Stops e buf [] head l h = absurd (cc h)
head_loop-Stops e buf (c ∷ s) head l h =
    let size = length-append buf (c ∷ []) in
    let regroup = append_assoc buf (c ∷ []) s in
    elim (Bool-cases (ends_with (buf ++ c ∷ []) blank_line)) [
      | inl b ↦
          rw (b, head_loop)
            (let same : buf ++ c ∷ [] ≡ head = ok-injective (rw (b, head_loop) at h) in
              (
                sym regroup ∙ ap (λ x. x ++ s) same,
                subst (λ x. ends_with x blank_line ≡ true) same b,
                omega (arith, l, size, ap length same),
              ))
      | inr b ↦ elim (Bool-cases (ltb 8192 (length (buf ++ c ∷ [])))) [
        | inl d ↦ absurd (cc (rw (b, d, head_loop) at h))
        | inr d ↦
            rw (b, d, head_loop)
              (let (a, f, g) =
                  head_loop-Stops e (buf ++ c ∷ []) s head (ground arith)
                    (rw (b, d, head_loop) at h) in
                (sym regroup ∙ a, f, g))
      ]
    ]

-- A head that is read is what the client sent up to its end, a blank line, at most 8193 bytes,
-- and what follows, such as a request body, is left to be read.
pub read_head_lem :
    (w : Wire) (head : Bytes)
    → (read_head w).0 ≡ ok head
    → (w.input ≡ head ++ (read_head w).1.input)
      × (ends_with head blank_line ≡ true)
      × (length head ≤ 8193)
unfolding read_head
read_head_lem w head h = head_loop-Stops (end_error w) [] w.input head (omega arith) h
