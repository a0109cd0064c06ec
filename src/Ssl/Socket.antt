-- ===== src/Ssl/Socket.antt =====
-- ssl_reactor/SSLSocket.h: what the calls of OpenSSL come back with, as the handler sees it. The
-- answers of OpenSSL are arguments.
use io_reactor.Prelude.{
  ℕ, zero, suc, ◌+◌, Bool, true, false, Option, none, some, List, leb, if◌then◌else◌,
}

-- What SSL_get_error tells.
pub data SslError : Type 0 where
  ssl_error_none ssl_error_want_write ssl_error_want_read ssl_error_zero_return ssl_error_syscall
        ssl_error_other :
      SslError

-- The answer of OpenSSL to one call. A negative status is `none`.
pub record Answer : Type 0 where
  pub status : Option ℕ
  pub ssl_error : SslError
  pub errno : ℕ
  pub err_get_error : ℕ
  -- the bytes that SSL_read wrote to the buffer
  pub bytes : List ℕ
  -- SSL_get_shutdown is SSL_RECEIVED_SHUTDOWN
  pub received_shutdown : Bool
  -- the protocol that was negotiated
  pub alpn : List ℕ

-- What the functions return: one of the constants, or a size.
pub data Result : Type 0 where
  null_ssl zero_return error_syscall error want_read want_write none_result : Result
  size : ℕ → Result

pub record SslSocket : Type 0 where
  pub has_ssl : Bool
  pub error_no : ℕ
  pub sent_size : ℕ

unfoldable pub clear : SslSocket → SslSocket
clear k = record k { has_ssl = false; sent_size = 0 }

-- `shutdown`, on what SSL_shutdown returned.
unfoldable pub shutdown : Option ℕ → SslSocket → Result
shutdown status k = if k.has_ssl then told status else null_ssl
  where
    told : Option ℕ → Result
    told (some zero) = want_read
    told (some (suc zero)) = none_result
    told _ = error

-- The switch over the error of a call.
unfoldable pub failed : Answer → SslError → SslSocket → SslSocket × Result
failed a ssl_error_none k = (k, none_result)
failed a ssl_error_want_write k = (k, want_write)
failed a ssl_error_want_read k = (k, want_read)
failed a ssl_error_zero_return k = (k, zero_return)
failed a ssl_error_syscall k = (record k { error_no = a.errno }, error_syscall)
failed a ssl_error_other k = (record k { error_no = a.err_get_error }, error)

-- `accept` and `connect`, for an `ssl` that is there or not.
unfoldable pub accept : Bool → Answer → SslSocket → SslSocket × Result
accept ssl a k = if ssl then failed a a.ssl_error (record k { has_ssl = true }) else (k, null_ssl)

unfoldable pub connect : Bool → Answer → SslSocket → SslSocket × Result
connect ssl a k = if ssl then failed a a.ssl_error (record k { has_ssl = true }) else (k, null_ssl)

unfoldable pub read_status : Answer → Option ℕ → SslSocket → SslSocket × Result
read_status a none k = failed a a.ssl_error k
read_status a (some zero) k = (k, zero_return)
read_status a (some (suc n)) k = (k, size (suc n))

unfoldable pub read : Answer → SslSocket → SslSocket × Result
read a k = if k.has_ssl then read_status a a.status k else (k, null_ssl)

-- A write error other than the ones that are named sets the size back.
unfoldable pub write_failed : Answer → SslError → SslSocket → SslSocket × Result
write_failed a ssl_error_other k = (record k { error_no = a.err_get_error; sent_size = 0 }, error)
write_failed a e k = failed a e k

unfoldable pub write_status : Answer → Option ℕ → ℕ → SslSocket → SslSocket × Result
write_status a none buffer_size k = write_failed a a.ssl_error k
write_status a (some zero) buffer_size k = (k, zero_return)
write_status a (some (suc n)) buffer_size k =
    let sent = k.sent_size + suc n in
    if leb sent buffer_size
    then (record k { sent_size = 0 }, size sent)
    else (record k { sent_size = sent }, want_write)

unfoldable pub write : Answer → ℕ → SslSocket → SslSocket × Result
write a buffer_size k = if k.has_ssl then write_status a a.status buffer_size k else (k, null_ssl)
