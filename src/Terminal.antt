-- ===== src/Terminal.antt =====
-- tmux/internal/termtext/termtext.go: a terminal's bytes as plain text, chunk by chunk. What
-- `unicode.IsPrint` says of a rune is a parameter.
pub mod Runes
pub mod Chunks
pub mod Plain
pub mod Tests
use mathlib.Core.Bool.{not}
use libtmux_go.Base.{
  ℕ, zero, suc, ◌+◌, ◌≤◌, Bool, true, false, ◌&&◌, ◌||◌, List, [], ◌∷◌, ◌++◌, take, drop, Bytes,
  length, ltb, leb, ◌==◌, if◌then◌else◌,
}
use libtmux_go.Terminal.Runes.{is_full, Rune, decode, rune_error}

-- `parseState`.
pub data State : Type 0 where
  ground escape escape_intermediate csi osc osc_escape control_string control_string_escape : State

-- `Normalizer` without the bytes of a character that is not complete.
pub record Machine : Type 0 where
  pub state : State
  pub after_cr : Bool

pub record Normalizer : Type 0 where
  pub machine : Machine
  pub pending : Bytes

abbrev pub new_normalizer : Normalizer
new_normalizer = record { machine = record { state = ground; after_cr = false }; pending = [] }

abbrev pub is_between : ℕ → ℕ → ℕ → Bool
is_between low high value = leb low value && leb value high

abbrev pub is_cancel : ℕ → Bool
is_cancel value = value == 0x18 || value == 0x1a

-- The states of `appendByte` but the ground state.
unfoldable pub after_byte : State → ℕ → State
after_byte ground value = ground
after_byte escape value =
    if value == 0x1b
    then escape
    else if value == b'['
    then csi
    else if value == b']'
    then osc
    else if value == b'P' || value == b'X' || value == b'^' || value == b'_'
    then control_string
    else if is_between 0x20 0x2f value
    then escape_intermediate
    else if is_between 0x30 0x7e value || is_cancel value
    then ground
    else escape
after_byte escape_intermediate value =
    if value == 0x1b
    then escape
    else if is_between 0x30 0x7e value || is_cancel value
    then ground
    else escape_intermediate
after_byte csi value =
    if value == 0x1b
    then escape
    else if is_between 0x40 0x7e value || is_cancel value
    then ground
    else csi
after_byte osc value =
    if value == 0x07 || is_cancel value then ground else if value == 0x1b then osc_escape else osc
after_byte osc_escape value =
    if value == 0x07 || is_cancel value || value == b'\\'
    then ground
    else if value == 0x1b
    then osc_escape
    else osc
after_byte control_string value =
    if is_cancel value
    then ground
    else if value == 0x1b
    then control_string_escape
    else control_string
after_byte control_string_escape value =
    if is_cancel value || value == b'\\'
    then ground
    else if value == 0x1b
    then control_string_escape
    else control_string

-- `inControlString`.
abbrev pub in_control_string : State → Bool
in_control_string osc = true
in_control_string osc_escape = true
in_control_string control_string = true
in_control_string control_string_escape = true
in_control_string _ = false

-- A string that an escape byte might have ended goes on.
abbrev pub resume_string : State → State
resume_string osc_escape = osc
resume_string control_string_escape = control_string
resume_string state = state

-- `appendC1`.
unfoldable pub after_c1 : State → ℕ → State
after_c1 state value =
    if in_control_string state
    then (if value == 0x9c then ground else resume_string state)
    else if value == 0x9b
    then csi
    else if value == 0x9d
    then osc
    else if value == 0x90 || value == 0x98 || value == 0x9e || value == 0x9f
    then control_string
    else ground

abbrev pub with_state : Machine → State → Machine
with_state m state = record m { state = state }

abbrev pub with_cr : Machine → Bool → Machine
with_cr m after = record m { after_cr = after }

-- `appendByte` in the ground state, with the text so far.
unfoldable pub ground_byte : Machine → Bytes → ℕ → Machine × Bytes
ground_byte m dst value =
    if value == b'\r'
    then (with_cr m true, dst ++ b'\n' ∷ [])
    else if value == b'\n'
    then (if m.after_cr then (with_cr m false, dst) else (m, dst ++ b'\n' ∷ []))
    else if value == 0x08
    then (with_cr m false, dst ++ b'\n' ∷ [])
    else if value == b'\t'
    then (with_cr m false, dst ++ value ∷ [])
    else if value == 0x1b
    then (with_state m escape, dst)
    else if leb 0x20 value && ltb value 0x7f
    then (with_cr m false, dst ++ value ∷ [])
    else (m, dst)

abbrev pub is_ground : State → Bool
is_ground ground = true
is_ground _ = false

-- `appendByte`.
unfoldable pub append_byte : Machine → Bytes → ℕ → Machine × Bytes
append_byte m dst value =
    if leb 0x80 value
    then (if leb value 0x9f then (with_state m (after_c1 m.state value), dst) else (m, dst))
    else if is_ground m.state
    then ground_byte m dst value
    else (with_state m (after_byte m.state value), dst)

-- The inner loop on the pending bytes: they take bytes of the chunk until a rune is full.
unfoldable pub fill : Bytes → Bytes → Bytes × Bytes
fill pending [] = (pending, [])
fill pending (c ∷ chunk) =
    if is_full pending then (pending, c ∷ chunk) else fill (pending ++ c ∷ []) chunk

module _ (is_print : ℕ → Bool) where
  -- `appendRune`.
  unfoldable pub append_rune : Machine → Bytes → ℕ → Bytes → Machine × Bytes
  append_rune m dst decoded encoded =
      if is_between 0x80 0x9f decoded
      then (with_state m (after_c1 m.state decoded), dst)
      else if in_control_string m.state
      then (with_state m (resume_string m.state), dst)
      else if is_print decoded
      then (record { state = ground; after_cr = false }, dst ++ encoded)
      else (with_state m ground, dst)

  -- A rune in front of pending bytes.
  abbrev pub append_pending : Machine → Bytes → Bytes → Machine × Bytes
  append_pending m dst pending =
      let r = decode pending in
      if r.size == 1
      then elim pending [ [] ↦ (m, dst) | c ∷ rest ↦ append_byte m dst c ]
      else append_rune m dst r.value (take r.size pending)

  -- A rune in front of a chunk that is not pending.
  abbrev pub append_front : Machine → Bytes → Bytes → Machine × Bytes
  append_front m dst chunk =
      let r = decode chunk in
      if r.value == rune_error && r.size == 1
      then elim chunk [ [] ↦ (m, dst) | c ∷ rest ↦ append_byte m dst c ]
      else append_rune m dst r.value (take r.size chunk)

  -- The loop over the chunk. Each round takes at least one byte, so that as many rounds as bytes are
  -- enough.
  unfoldable pub chunk_loop : ℕ → Machine → Bytes → Bytes → Normalizer × Bytes
  chunk_loop fuel m dst [] = (record { machine = m; pending = [] }, dst)
  chunk_loop zero m dst (c ∷ chunk) = (record { machine = m; pending = [] }, dst)
  chunk_loop (suc fuel) m dst (c ∷ chunk) =
      if ltb c 0x80
      then (let next = append_byte m dst c in chunk_loop fuel (next.0) (next.1) chunk)
      else if not (is_full (c ∷ chunk))
      then (record { machine = m; pending = take 4 (c ∷ chunk) }, dst)
      else (let next = append_front m dst (c ∷ chunk) in
          chunk_loop fuel (next.0) (next.1) (drop (decode (c ∷ chunk)).size (c ∷ chunk)))

  -- The loop on the pending bytes, and the other one behind it.
  unfoldable pub pending_loop : ℕ → Machine → Bytes → Bytes → Bytes → Normalizer × Bytes
  pending_loop fuel m dst [] chunk = chunk_loop (length chunk) m dst chunk
  pending_loop zero m dst (p ∷ pending) chunk = (record { machine = m; pending = p ∷ pending }, dst)
  pending_loop (suc fuel) m dst (p ∷ pending) chunk =
      let filled = fill (p ∷ pending) chunk in
      let next = append_pending m dst (filled.0) in
      let rest =
        pending_loop fuel (next.0) (next.1) (drop (decode (filled.0)).size (filled.0)) (filled.1) in
      if not (is_full (filled.0)) then (record { machine = m; pending = filled.0 }, dst) else rest

  -- `AppendChunk`.
  unfoldable pub append_chunk : Normalizer → Bytes → Bytes → Normalizer × Bytes
  append_chunk n dst chunk =
      pending_loop (length n.pending + length chunk) n.machine dst n.pending chunk
