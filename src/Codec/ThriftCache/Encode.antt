-- ===== src/Codec/ThriftCache/Encode.antt =====
-- src/codec/thrift_cache.rs, `encode`: a request is drawn and written to the session.
use rpc_perf.Net.{Net}
use rpc_perf.Rand.{Rand}
use rpc_perf.Keyspace.{Config, choose_keyspace, choose_command}
use rpc_perf.Writer.{W, put_once, pure, lift, ◌>>=◌, ◌>>◌}
use rpc_perf.Codec.ThriftCache.{request}

-- Each request ends with `buf.write(buffer.as_bytes())`, which stands here.
unfoldable pub encode : (net : Net) {rand : Rand} → Config rand → rand.Rng → W net rand.Rng
encode net config rng = do
  (keyspace, rng') ← lift (choose_keyspace config rng)
  (command, rng'') ← lift (choose_command keyspace rng')
  (request_buffer, rng''') ← lift (request command.verb keyspace rng'')
  put_once request_buffer.buffer
  pure rng'''
