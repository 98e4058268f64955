-- ===== src/AppData/Base32/Buffer.antt =====
-- The buffer of the base32 decoder, for each number of bits that it may hold.
use cow_rs.Base.{ℕ, zero, suc, ◌+◌, ◌*◌, ◌/◌, ◌%◌, ◌^◌, ◌<◌, ◌≡◌, arith}
use cow_rs.AppData.Base32.{shift_in}

-- One character in front of the loop's state: what is written and what is still in the buffer, as
-- one number.
pub carry :
    (bits buf v o : ℕ)
    → bits < 8
    → v < 32
    → (o * 2 ^ bits + buf % 2 ^ bits) * 32 + v
      ≡ o * 2 ^ (bits + 5) + shift_in buf v % 2 ^ (bits + 5)
carry zero buf v o h k = omega arith
carry (suc zero) buf v o h k = omega arith
carry (suc (suc zero)) buf v o h k = omega arith
carry (suc (suc (suc zero))) buf v o h k = omega arith
carry (suc (suc (suc (suc zero)))) buf v o h k = omega arith
carry (suc (suc (suc (suc (suc zero))))) buf v o h k = omega arith
carry (suc (suc (suc (suc (suc (suc zero)))))) buf v o h k = omega arith
carry (suc (suc (suc (suc (suc (suc (suc zero))))))) buf v o h k = omega arith
carry (suc (suc (suc (suc (suc (suc (suc (suc bits)))))))) buf v o h k = absurd (omega arith)

-- A byte leaves the buffer.
pub emit :
    (bits buf o : ℕ)
    → bits < 8
    → o * 2 ^ (bits + 8) + buf % 2 ^ (bits + 8)
      ≡ (o * 256 + buf / 2 ^ bits % 256) * 2 ^ bits + buf % 2 ^ bits
emit zero buf o h = omega arith
emit (suc zero) buf o h = omega arith
emit (suc (suc zero)) buf o h = omega arith
emit (suc (suc (suc zero))) buf o h = omega arith
emit (suc (suc (suc (suc zero)))) buf o h = omega arith
emit (suc (suc (suc (suc (suc zero))))) buf o h = omega arith
emit (suc (suc (suc (suc (suc (suc zero)))))) buf o h = omega arith
emit (suc (suc (suc (suc (suc (suc (suc zero))))))) buf o h = omega arith
emit (suc (suc (suc (suc (suc (suc (suc (suc bits)))))))) buf o h = absurd (omega arith)

-- A multiple is read off, with nothing over.
pub no_rest : (r a b t : ℕ) → r < 8 → t < 2 ^ r → a * 2 ^ r + t ≡ b * 2 ^ r → (t ≡ 0) × (a ≡ b)
no_rest zero a b t h k e = omega arith
no_rest (suc zero) a b t h k e = omega arith
no_rest (suc (suc zero)) a b t h k e = omega arith
no_rest (suc (suc (suc zero))) a b t h k e = omega arith
no_rest (suc (suc (suc (suc zero)))) a b t h k e = omega arith
no_rest (suc (suc (suc (suc (suc zero))))) a b t h k e = omega arith
no_rest (suc (suc (suc (suc (suc (suc zero)))))) a b t h k e = omega arith
no_rest (suc (suc (suc (suc (suc (suc (suc zero))))))) a b t h k e = omega arith
no_rest (suc (suc (suc (suc (suc (suc (suc (suc r)))))))) a b t h k e = absurd (omega arith)

pub rest_bound : (r n : ℕ) → r < 8 → n % 2 ^ r < 2 ^ r
rest_bound zero n h = omega arith
rest_bound (suc zero) n h = omega arith
rest_bound (suc (suc zero)) n h = omega arith
rest_bound (suc (suc (suc zero))) n h = omega arith
rest_bound (suc (suc (suc (suc zero)))) n h = omega arith
rest_bound (suc (suc (suc (suc (suc zero))))) n h = omega arith
rest_bound (suc (suc (suc (suc (suc (suc zero)))))) n h = omega arith
rest_bound (suc (suc (suc (suc (suc (suc (suc zero))))))) n h = omega arith
rest_bound (suc (suc (suc (suc (suc (suc (suc (suc r)))))))) n h = absurd (omega arith)
