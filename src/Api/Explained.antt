-- ===== src/Api/Explained.antt =====
-- Every refusal is explained in the request log, and nothing else is.
pub mod Accounts
pub mod Transfers
pub mod Serve
use payments_engine.Base.{
  ℕ, ◌≤◌, ◌<◌, Bool, true, false, [], ◌∷◌, Option, none, some, Text, ◌≢◌, arith, text_eq,
  if◌then◌else◌,
}
use payments_engine.Error.{Error, Result}
use payments_engine.Api.Answer.{Message, Answer, Body, Handler, write, failing, reply, calling}
use payments_engine.Api.Transfers.{write_transfer_error}
use payments_engine.Exec.{Exec}
use payments_engine.World.{World}

-- a success without an error code, or a refusal with one
abbrev pub HasReason : ℕ → Option (Text × Message) → Type 0
HasReason status none = status < 400
HasReason status (some (code, detail)) = (400 ≤ status) × (code ≢ [])

module _ {D : Type 0} where
  pub record IsExplained (a : Answer D) : Type 0 where
    pub reason : HasReason a.status a.logged
    pub least : 200 ≤ a.status
    pub most : a.status ≤ 503

  -- every answer of the handler is explained
  pub record Explains (h : Handler D) : Type 0 where
    pub explains : (w : World D) → IsExplained (h w).0

  Explains-if :
      (b : Bool) (one other : Handler D)
      → Explains one
      → Explains other
      → Explains (if b then one else other)
  Explains-if true one other h k = h
  Explains-if false one other h k = k

  Explains-calling :
      {A : Type 0} (m : Exec (World D) A) (f : Result A → Handler D)
      → ((r : Result A) → Explains (f r))
      → Explains (calling m f)
  Explains-calling m f k = record { explains = λ w. (k (m w).0).explains (m w).1 }

  IsExplained-if :
      (b : Bool) (one other : Answer D)
      → IsExplained one
      → IsExplained other
      → IsExplained (if b then one else other)
  IsExplained-if true one other h k = h
  IsExplained-if false one other h k = k

  Explains-reply : (a : Answer D) → IsExplained a → Explains (reply a)
  Explains-reply a h = record { explains = λ w. h }

  Explains-write :
      (status : ℕ) (body : Body D)
      → 200 ≤ status
      → status < 400
      → Explains (reply (write status body))
  Explains-write status body h k =
      Explains-reply _ (record { reason = k; least = h; most = omega arith })

  refused :
      (status : ℕ) (c : ℕ) (code : Text) (detail : Message) (body : Body D)
      → 400 ≤ status
      → status ≤ 503
      → IsExplained (failing status (c ∷ code) detail body)
  refused status c code detail body h k = record {
    reason = (h, λ e. cc e);
    least = omega arith;
    most = k;
  }

  Explains-refuse :
      (status : ℕ) (c : ℕ) (code : Text) (detail : Message) (body : Body D)
      → 400 ≤ status
      → status ≤ 503
      → Explains (reply (failing status (c ∷ code) detail body))
  Explains-refuse status c code detail body h k =
      Explains-reply _ (refused status c code detail body h k)

  ruleset explained = (arith, Explains-if, Explains-calling, Explains-write, Explains-refuse)

  write_transfer_error-IsExplained : (e : Error) → IsExplained (write_transfer_error {D = D} e)
  unfolding write_transfer_error
  write_transfer_error-IsExplained e = search (arith, IsExplained-if, refused) depth 14
