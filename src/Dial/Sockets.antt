-- ===== src/Dial/Sockets.antt =====
-- The socket calls, which are the kernel's, and what is relied on of them.
use unpv13e.Base.{ℕ, ◌≡◌, List, ◌∷◌, Bool, true, false, Option, none, some}
use unpv13e.Gai.Types.{Sockaddr}

-- `socket` returns a descriptor or fails; the others succeed or fail.
pub record Kernel (W : Type 0) : Type 0 where
  pub socket : ℕ → ℕ → ℕ → W → Option ℕ × W
  pub reuseaddr : ℕ → W → Bool × W
  pub bind : ℕ → Option Sockaddr → ℕ → W → Bool × W
  pub connect : ℕ → Option Sockaddr → ℕ → W → Bool × W
  pub listen : ℕ → W → Bool × W
  pub close : ℕ → W → Bool × W

module _ {W : Type 0} (opened : W → List (ℕ × ℕ)) where
  abbrev pub OpensOne : ℕ → W → Option ℕ × W → Type 0
  OpensOne socktype w (none, w') = opened w' ≡ opened w
  OpensOne socktype w (some fd, w') = opened w' ≡ (fd, socktype) ∷ opened w

  -- Where the newest socket is closed, the others are left.
  abbrev pub ClosesOne : ℕ → W → Bool × W → Type 0
  ClosesOne fd w (true, w') =
      (socktype : ℕ) (s : List (ℕ × ℕ)) → opened w ≡ (fd, socktype) ∷ s → opened w' ≡ s
  ClosesOne fd w (false, w') = opened w' ≡ opened w

-- The open sockets of the process, the newest first, with their types, and how the calls change them.
pub record IsKernel {W : Type 0} (k : Kernel W) : Type 0 where
  pub opened : W → List (ℕ × ℕ)
  pub socket_one :
      (family socktype protocol : ℕ) (w : W)
      → OpensOne opened socktype w (k.socket family socktype protocol w)
  pub reuseaddr_keeps : (fd : ℕ) (w : W) → opened (k.reuseaddr fd w).1 ≡ opened w
  pub bind_keeps :
      (fd : ℕ) (a : Option Sockaddr) (n : ℕ) (w : W) → opened (k.bind fd a n w).1 ≡ opened w
  pub connect_keeps :
      (fd : ℕ) (a : Option Sockaddr) (n : ℕ) (w : W) → opened (k.connect fd a n w).1 ≡ opened w
  pub listen_keeps : (fd : ℕ) (w : W) → opened (k.listen fd w).1 ≡ opened w
  pub close_one : (fd : ℕ) (w : W) → ClosesOne opened fd w (k.close fd w)
